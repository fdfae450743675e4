-- ===== src/Sched/Tests.antt =====
-- The theorems on the scheduler's loop at a concrete round.
use tit_co.Base.{
  ◌≡◌, ℕ, ◌<◌, get_or, Option, Bool, All, ◌≤◌, refl, true, false, none, some, ◌==◌, if◌then◌else◌,
  List, [], ◌∷◌, count, suc, arith,
}
use tit_co.Base.Word.{minus_one}
use tit_co.CoState.{Store, k_init}
use tit_co.Timer.{collect}
use tit_co.CoState.{expire}
use tit_co.Pool.{create, Copoll, new, scheduler, push, pop, Call, pops, pushes, Ledger, step, run}
use tit_co.Io.SockCtx.{SockCtx, add_ev_read, fresh}
use tit_co.Sched.{
  due, run_tasks, handle_events, Scheduler, Act, adds_timer, Work, length, starts, continues,
  adds_new, Script, Ready, wakeup, io, ready, iterate,
}
use tit_co.Sched.Loop.{after_tasks}
use tit_co.Sched.Kept.{Fine}
use tit_co.Sched.Wakes.{InTime, From, no_oversleep}
use tit_co.Sched.Setup.{
  Owner, no_thread, construct, founded, main_apart, new_coroutine, yield, closure_lost,
}
use tit_co.Sched.Manager.{SchedulerManager, choices, round_robin}

-- Coroutine 5 of scheduler 0 waits to read.
abbrev reader : SockCtx
reader = add_ev_read 0 5 fresh

abbrev events : List Ready
events = wakeup ∷ io (record { epollin = true; epollout = false; rest = false }) reader ∷ []

abbrev store : Store
store = record { wait_ctx = λ co. some co; ctx_state = λ w. k_init; co_state = λ co. k_init }

-- A coroutine that waits on a channel until 10, a new task and a ready coroutine.
abbrev before : Scheduler
before = record {
  id = 0;
  wait_ms = minus_one;
  running_co = none;
  pool = create;
  tasks = record { new_tasks = 70 ∷ []; ready_tasks = 3 ∷ [] };
  timers = record {
    timer = record { handle = 0; deadline = 10; co = 2 } ∷ [];
    it = some 0;
    fresh = 1;
  };
  store = store;
  timeout = false;
  stop = false;
  log = [];
  undefined = false;
}

-- Whoever waits for a descriptor starts another task when it is resumed; everybody yields.
abbrev script : Script
script n (starts func) = ([], true)
script n (continues co) = ((if co == 5 then adds_new 71 ∷ [] else []), false)

-- The clock is at 11 for the collection of timers.
abbrev after : Scheduler
after = iterate script before (ready events) (λ i. 11)

-- The task that coroutine 5 adds is started in the same round, and coroutine 2 finds itself late.
round :
    after.log
    ≡ (continues 5, false)
      ∷ (starts 70, false)
      ∷ (starts 71, false)
      ∷ (continues 3, false)
      ∷ (continues 2, true)
      ∷ []
unfolding iterate due create expire
round = refl

abbrev three : SchedulerManager
three = record { index = 0; sched_num = 3 }

round_robin_example : count 0 (choices 10 three) ≤ suc (count 2 (choices 10 three))
round_robin_example = round_robin three 10 0 2 (omega arith) (omega arith) (omega arith)

-- Coroutine 2 is late and sets another timer, coroutine 4 has time until 40.
abbrev two_timers : Scheduler
two_timers = record before {
  timers = record {
    timer =
        record { handle = 0; deadline = 10; co = 2 }
        ∷ record { handle = 1; deadline = 40; co = 4 }
        ∷ [];
    it = some 1;
    fresh = 2;
  };
}

abbrev again : Bool → List Act
again true = adds_timer 11 5 ∷ []
again false = []

abbrev sets_timer : Script
sets_timer n (starts func) = ([], true)
sets_timer n (continues co) = (again (co == 2), false)

again-Fine : (b : Bool) → All (Fine (From 11)) (again b)
again-Fine true = ((omega arith, omega arith), tt)
again-Fine false = tt

sets_timer-Fine :
    (i : ℕ) (w : Work)
    → length (after_tasks sets_timer two_timers events).log ≤ i
    → All (Fine (From 11)) (sets_timer i w).0
sets_timer-Fine i (starts func) h = tt
sets_timer-Fine i (continues co) h = again-Fine (co == 2)

abbrev slept : Scheduler
slept = iterate sets_timer two_timers (ready events) (λ _. 11)

no_oversleep_example : InTime 11 slept.wait_ms slept.timers
unfolding iterate due create expire collect run_tasks handle_events
no_oversleep_example =
    no_oversleep sets_timer two_timers events 11 refl (omega arith) (omega arith) sets_timer-Fine
      refl

-- It sleeps until the new timer is due.
slept-wait : slept.wait_ms ≡ 5
unfolding iterate due create expire
slept-wait = refl

-- A scheduler, some coroutines that it makes and gets back, and the next one.
abbrev owner_or : Option Owner → Owner
owner_or none = record { sched = before; main_co = 9; thread = no_thread }
owner_or (some o) = o

abbrev owner : Owner
unfolding construct
owner = owner_or (construct 3 store)

abbrev ledger_or : Option Ledger → Ledger
ledger_or none = founded owner
ledger_or (some l) = l

abbrev calls : List Call
calls = pops ∷ pops ∷ pushes 1 ∷ []

abbrev used : Ledger
unfolding run
used = ledger_or (run (founded owner) calls)

abbrev next : Ledger
unfolding step
next = ledger_or (step used pops)

main_apart_example :
    (a : ℕ) × (next.live ≡ a ∷ used.live) × (count a used.live ≡ 0) × (1 ≤ a) × (a < 256)
unfolding run step construct pop push create mathlib.Core.Option.bind
main_apart_example =
    main_apart 3 store owner calls used next refl (tt, (tt, ((omega arith), tt))) refl refl

-- The first coroutine of a scheduler yields and is given back.
closure_lost_example :
    ((get_or (yield 3 owner.sched.pool 1).pool 1 new).body ≡ scheduler 3)
    × ((after : Copoll) × (new_coroutine (push (yield 3 owner.sched.pool 1) 1) 8
          ≡ some (1, after, scheduler 3)))
unfolding create construct pop
closure_lost_example = closure_lost 3 8 owner.sched.pool 1 (omega arith)
