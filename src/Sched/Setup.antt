-- ===== src/Sched/Setup.antt =====
-- src/scheduler.cc: the constructor and the destructor of `SchedulerImpl`, `Start` and `Stop`, and
-- `Yield` and `on_stack`.
use mathlib.Core.Option
use tit_co.Base.{
  ℕ, ◌<◌, ◌≤◌, ◌≡◌, ◌≢◌, refl, Bool, true, false, ◌&&◌, ◌==◌, leb, ltb, if◌then◌else◌, Option, none,
  some, Option-cases, ap, subst, sym, ◌∙◌, inl, inr, List, [], ◌∷◌, All, length, drop, get_or,
  get_or-set_self, length-set, set, count, count-remove, arith,
}
use tit_co.Base.Word.{minus_one}
use tit_co.CoState.{Store}
use tit_co.Task.{no_tasks}
use tit_co.Timer
use tit_co.Pool
use tit_co.Pool.{
  Copoll, Coroutine, Body, new, init, scheduler, func, pop, push, Call, pops, pushes, runs, Ledger,
  step, run,
}
use tit_co.Pool.Ids.{IsValid, initial, run-IsValid, step-IsValid, pop-IsFresh}
use tit_co.Sched.{Scheduler}
use tit_co.Text.Digits.{codes}

-- `thread_`: none yet, one that runs the loop, or one that has been deleted.
pub data Thread : Type 0 where
  no_thread : Thread
  running : List ℕ → Thread
  deleted : Thread

-- A scheduler with its thread and `main_co_`.
pub record Owner : Type 0 where
  pub sched : Scheduler
  pub main_co : ℕ
  pub thread : Thread

abbrev pub fields : ℕ → Store → Copoll → Scheduler
fields sched_id store pool = record {
  id = sched_id;
  wait_ms = minus_one;
  running_co = none;
  pool = pool;
  tasks = no_tasks;
  timers = Timer.create;
  store = store;
  timeout = false;
  stop = false;
  log = [];
  undefined = false;
}

-- The constructor, with the states of waits as the program has left them.
unfoldable pub construct : ℕ → Store → Option Owner
unfolding Pool.create pop
construct sched_id store =
    Option.map
      (λ r. record { sched = fields sched_id store r.1; main_co = r.0; thread = no_thread })
      (pop Pool.create)

-- `&"Scheduler-"[id_]` points into the text of eleven bytes; the name ends at its NUL.
unfoldable pub thread_name : ℕ → Option (List ℕ)
thread_name id = if leb id 10 then some (drop id (codes "Scheduler-")) else none

-- `none` where an assertion fails, or the name is read past the end of the text.
unfoldable pub start : Owner → Option Owner
unfolding thread_name
start o =
    if o.sched.stop
    then none
    else Option.map (λ name. record o { thread = running name }) (thread_name o.sched.id)

unfoldable pub stop : Owner → Option Owner
stop o =
    if o.sched.stop
    then none
    else some (record o { thread = deleted; sched = record (o.sched) { stop = true } })

-- The destructor.
unfoldable pub destroy : Owner → Option Owner
unfolding stop
destroy o = if o.sched.stop then some o else stop o

-- `NewCoroutine`: beside the coroutine, what `func_ = func` assigns over.
unfoldable pub new_coroutine : Copoll → ℕ → Option (ℕ × Copoll × Body)
unfolding pop
new_coroutine p f =
    Option.map
      (λ r.
        let co = get_or r.1.pool r.0 new in
        (r.0, record (r.1) { pool = set r.1.pool r.0 (record co { body = func f }) }, co.body))
      (pop p)

-- `Yield` before it jumps: what is compared is the union, whichever member it holds; a closure is
-- taken for another pointer.
unfoldable pub marked : ℕ → Body → Body
marked id (scheduler other) = if other == id then scheduler other else scheduler id
marked id (func f) = scheduler id

unfoldable pub yield : ℕ → Copoll → ℕ → Copoll
unfolding marked
yield id p co =
    let running = get_or p.pool co new in
    record p { pool = set p.pool co (record running { body = marked id running.body }) }

-- `on_stack`, of an address, by the bounds of the stack of the running coroutine.
abbrev pub on_stack : ℕ → ℕ → ℕ → Bool
on_stack p top address = leb p address && ltb address top

-- The calls of the loop: `Recycle` never gives back `main_co_`.
abbrev pub Spares : ℕ → Call → Type 0
Spares main (pushes co) = co ≢ main
Spares main other = Unit

step_keeps :
    (l l' : Ledger) (c : Call) (main : ℕ)
    → Spares main c
    → step l c ≡ some l'
    → 0 < count main l.live
    → 0 < count main l'.live
unfolding step
step_keeps l l' pops main h e live = elim (Option-cases (pop l.copoll)) [
  | inl n ↦ absurd (ground arith)
  | inr (r, n) ↦ ground (arith, n)
]
step_keeps l l' (pushes co) main h e live = ground (arith, h, count-remove main co l.live)
step_keeps l l' (runs co a) main h e live = ground arith

run_keeps :
    (cs : List Call) (l l' : Ledger) (main : ℕ)
    → All (Spares main) cs
    → run l cs ≡ some l'
    → 0 < count main l.live
    → 0 < count main l'.live
unfolding run Option.bind
run_keeps [] l l' main h e live = ground arith
run_keeps (c ∷ cs) l l' main (h, hs) e live = elim (Option-cases (step l c)) [
  | inl n ↦ absurd (ground arith)
  | inr (m, n) ↦ run_keeps cs m l' main hs (ground arith) (step_keeps l m c main h n live)
]

abbrev pub founded : Owner → Ledger
founded o = record { copoll = o.sched.pool; live = o.main_co ∷ [] }

founded_lem :
    (id : ℕ) (store : Store) (o : Owner) (cs : List Call)
    → construct id store ≡ some o
    → (o.main_co ≡ 0) × (run (founded o) cs ≡ run initial (pops ∷ cs))
unfolding construct run step pop Pool.create Option.bind
founded_lem id store o cs e =
    let same : some (founded o) ≡ step initial pops = ap (Option.map founded) (sym e) in
    (
      ap (λ m. elim m [ none ↦ 0 | some r ↦ r.main_co ]) (sym e),
      ap (λ m. Option.bind m (λ l. run l cs)) same,
    )

below : (l : Ledger) (a : ℕ) → IsValid l → 0 < count a l.live → a < 256
below l a v h = ground (arith, v.once a, v.bound)

-- Whatever a scheduler's coroutines do, as long as it does not give back its own, which `Recycle`
-- sees to, and as long as no `Pop`, the next one included, reaches past the 256 coroutines of the
-- pool, which the code does not check: the next coroutine that it makes is not the one of the loop,
-- no coroutine in use has its id, and its id is from 1 to 255, so that it is never the value that
-- stands for no coroutine.
pub main_apart :
    (id : ℕ) (store : Store) (o : Owner) (cs : List Call) (l l' : Ledger)
    → construct id store ≡ some o
    → All (Spares o.main_co) cs
    → run (founded o) cs ≡ some l
    → step l pops ≡ some l'
    → (a : ℕ) × (l'.live ≡ a ∷ l.live) × (count a l.live ≡ 0) × (1 ≤ a) × (a < 256)
main_apart id store o cs l l' e spares r p =
    let (zero_, same) = founded_lem id store o cs e in
    let v = run-IsValid (pops ∷ cs) l (sym same ∙ r) in
    let (a, co, (live, new_, at_, own, ctx, saved, state)) = pop-IsFresh l l' v p in
    let held = run_keeps cs (founded o) l o.main_co spares r (ground arith) in
    (
      a,
      live,
      new_,
      ground (arith, zero_, held, new_),
      below l' a (step-IsValid l l' pops v p) (ground (arith, live)),
    )

marked_lem : (id : ℕ) (b : Body) → marked id b ≡ scheduler id
unfolding marked
marked_lem id (scheduler other) = ground arith
marked_lem id (func f) = refl

-- What `NewCoroutine` assigns over is what the coroutine that was given back last has there.
again :
    (g : ℕ) (p : Copoll) (co : ℕ) (old : Coroutine)
    → co < length p.pool
    → get_or p.pool co new ≡ old
    → (after : Copoll) × (new_coroutine (push p co) g ≡ some (co, after, old.body))
unfolding new_coroutine push pop
again g p co old h e =
    let next : Coroutine = init (get_or p.pool co new) in
    let after : Coroutine = record (get_or (set p.pool co next) co new) { body = func g } in
    (
      record p { pool = set (set p.pool co next) co after },
      ground (arith, e, get_or-set_self p.pool co next new h),
    )

-- The closure of a coroutine is lost at its first `Yield`: the address of the scheduler is written
-- over it while it runs; and when the coroutine has been given back, that address is what the next
-- closure is assigned over, as if it were one.
pub closure_lost :
    (id g : ℕ) (p : Copoll) (co : ℕ)
    → co < length p.pool
    → ((get_or (yield id p co).pool co new).body ≡ scheduler id)
      × ((after : Copoll) × (new_coroutine (push (yield id p co) co) g
            ≡ some (co, after, scheduler id)))
unfolding yield
closure_lost id g p co h =
    let running = get_or p.pool co new in
    let written : Coroutine = record running { body = marked id running.body } in
    let stands = get_or-set_self p.pool co written new h in
    let (after, e) =
      again g (yield id p co) co written
        (subst (λ n. co < n) (sym (length-set p.pool co written)) h) stands in
    let same = marked_lem id running.body in
    (ap (λ (c : Coroutine). c.body) stands ∙ same, (after, e ∙ ap (λ b. some (co, after, b)) same))
