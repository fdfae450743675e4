-- ===== src/Sched.antt =====
-- src/scheduler.cc: the loop of a scheduler over its managers, which are modelled in Task, Timer,
-- Pool and Io, and the round robin among schedulers.
pub mod Added
pub mod Ran
pub mod Loop
pub mod Kept
pub mod Wakes
pub mod Manager
pub mod Setup
mod Tests
use mathlib.Core.Option
use tit_co.Base.{
  map, ℕ, suc, ◌+◌, ◌-◌, ◌%◌, Bool, true, false, ◌||◌, not, ltb, ◌==◌, if◌then◌else◌, Option, none,
  some, List, [], ◌∷◌, ◌++◌,
}
use tit_co.Base.Word.{u32, minus_one}
use tit_co.CoState.{Store}
use tit_co.Task.{TaskManager, add_new_tasks, add_ready_tasks, get_all_tasks}
use tit_co.Timer.{TimerManager, create, add_timer, collect}
use tit_co.Pool.{Copoll, pop, push}
use tit_co.Io.SockCtx.{SockCtx}
use tit_co.Io.Event.{Events, dispatch}

-- What the loop resumes: a new task, in the coroutine that it is given, or a coroutine.
pub data Work : Type 0 where
  starts : ℕ → Work
  continues : ℕ → Work

-- `SchedulerImpl`. `log` is what it has resumed so far, each with `timeout_` at that time;
-- `undefined` is set where the pool is overrun or the position of the timers dangles.
pub record Scheduler : Type 0 where
  pub id : ℕ
  pub wait_ms : ℕ
  pub running_co : Option ℕ
  pub pool : Copoll
  pub tasks : TaskManager
  pub timers : TimerManager
  pub store : Store
  pub timeout : Bool
  pub stop : Bool
  pub log : List (Work × Bool)
  pub undefined : Bool

-- What a coroutine does to its scheduler between two switches: `AddNewTask`, `AddReadyTask`,
-- `AddTimer` at a time of the clock, `Stop`, changes of the states that timers and channels race
-- for.
pub data Act : Type 0 where
  adds_new adds_ready : ℕ → Act
  adds_timer : ℕ → ℕ → Act
  stops : Act
  writes : Store → Act

abbrev pub timed : Scheduler → ℕ → Option (TimerManager × ℕ) → Scheduler
timed s ms none = record s { undefined = true }
timed s ms (some (t, handle)) = record s {
  timers = t;
  wait_ms = if ltb ms s.wait_ms then ms else s.wait_ms;
}

abbrev pub timer_for : Scheduler → ℕ → ℕ → Option ℕ → Scheduler
unfolding add_timer
timer_for s now ms none = record s { undefined = true }
timer_for s now ms (some co) = timed s ms (add_timer s.timers now ms co)

-- `AddTimer`, and `Sleep` up to its `Yield`.
unfoldable pub add_sched_timer : Scheduler → ℕ → ℕ → Scheduler
unfolding timer_for
add_sched_timer s now ms = timer_for s now ms s.running_co

unfoldable pub act : Scheduler → Act → Scheduler
unfolding add_new_tasks add_ready_tasks add_sched_timer
act s (adds_new func) = record s { tasks = add_new_tasks func s.tasks }
act s (adds_ready co) = record s { tasks = add_ready_tasks co s.tasks }
act s (adds_timer now ms) = add_sched_timer s now ms
act s stops = record s { stop = true }
act s (writes store) = record s { store = store }

unfoldable pub acts : Scheduler → List Act → Scheduler
unfolding act
acts s [] = s
acts s (a ∷ more) = acts (act s a) more

abbrev pub pushed : Scheduler → Option ℕ → Scheduler
unfolding push
pushed s none = s
pushed s (some co) = record s { pool = push s.pool co }

-- `Recycle`, where the coroutine has returned.
unfoldable pub recycle : Scheduler → Scheduler
unfolding pushed
recycle s = pushed s s.running_co

-- What a coroutine does when it is resumed, by the number of resumes before: its acts, and whether
-- it returns at the end, or yields.
abbrev pub Script : Type 0
Script = ℕ → Work → List Act × Bool

abbrev pub length : {A : Type 0} → List A → ℕ
length [] = 0
length (x ∷ xs) = suc (length xs)

-- One `epoll_event`: the wake-up descriptor, or another with its context as it is then.
pub data Ready : Type 0 where
  wakeup : Ready
  io : Events → SockCtx → Ready

abbrev pub due : ℕ → Ready → List Work
unfolding dispatch
due id wakeup = []
due id (io events ctx) = map continues (dispatch id events ctx)

-- What `Wait` comes to: an error, or the events.
pub data Waited : Type 0 where
  failed : Waited
  ready : List Ready → Waited

module _ (script : Script) where
  -- The coroutine has the processor; `Resume` ends with `Recycle` if it returned.
  unfoldable pub switch : Scheduler → Work → Scheduler
  unfolding acts recycle
  switch s w =
      let (done, returns) = script (length s.log) w in
      let after = acts (record s { log = s.log ++ ((w, s.timeout) ∷ []) }) done in
      if returns then recycle after else after

  abbrev pub with_co : Scheduler → Option (ℕ × Copoll) → Scheduler
  with_co s none = record s { running_co = none; undefined = true }
  with_co s (some (co, pool)) = record s { running_co = some co; pool = pool }

  -- `Resume(co)`, and `Resume(NewCoroutine(func))`.
  unfoldable pub resume : Scheduler → Work → Scheduler
  unfolding switch pop
  resume s (continues co) = switch (record s { running_co = some co }) (continues co)
  resume s (starts func) = switch (with_co s (pop s.pool)) (starts func)

  unfoldable pub resume_all : Scheduler → List Work → Scheduler
  unfolding resume
  resume_all s [] = s
  resume_all s (w ∷ ws) = resume_all (resume s w) ws

  unfoldable pub handle_events : Scheduler → List Ready → Scheduler
  unfolding resume_all
  handle_events s [] = s
  handle_events s (e ∷ es) = handle_events (resume_all s (due s.id e)) es

  abbrev pub run_taken : Scheduler → TaskManager × List ℕ × List ℕ → Scheduler
  unfolding resume_all
  run_taken s (m, new_tasks, ready_tasks) =
      resume_all (resume_all (record s { tasks = m }) (map starts new_tasks))
        (map continues ready_tasks)

  -- The first `do … while (0)` of the loop.
  unfoldable pub run_tasks : Scheduler → Scheduler
  unfolding get_all_tasks run_taken
  run_tasks s = run_taken s (get_all_tasks s.tasks [] [])

  abbrev pub resume_late : Scheduler → List ℕ → Scheduler
  unfolding resume_all
  resume_late s [] = s
  resume_late s (co ∷ cos) =
      record (resume_all (record s { timeout = true }) (map continues (co ∷ cos))) {
        timeout = false;
      }

  -- The second one; `timeout_` is set only around a list that is not empty.
  unfoldable pub run_timers : Scheduler → (ℕ → ℕ) → Scheduler
  unfolding collect resume_late
  run_timers s now =
      let c = collect s.timers now s.store in
      let collected = record s { wait_ms = c.result; timers = c.timers; store = c.store } in
      resume_late collected c.tasks

  -- One round of `Loop`, with the answers of the clock to the collection of timers.
  unfoldable pub iterate : Scheduler → Waited → (ℕ → ℕ) → Scheduler
  unfolding handle_events run_tasks run_timers
  iterate s failed now = s
  iterate s (ready es) now =
      if s.stop
      then s
      else record (run_timers (run_tasks (handle_events s es)) now) { running_co = none }
