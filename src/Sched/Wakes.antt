-- ===== src/Sched/Wakes.antt =====
-- How long a scheduler of src/scheduler.cc sleeps after a round: `wait_ms_` against its timers.
use tit_co.Base.{
  ℕ, suc, ◌+◌, ◌^◌, ◌≤◌, ◌<◌, false, ltb, if◌then◌else◌, ◌≡◌, refl, sym, subst, some, List, [], ◌∷◌,
  All, arith,
}
use tit_co.Timer.{Entry, TimerManager, add_timer, collect}
use tit_co.Timer.Insert.{Above, Above-mono}
use tit_co.CoState.{Store}
use tit_co.Timer.Hints.{add_timer-Above}
use tit_co.Timer.Collect.{collect-Above, waits_sorted}
use tit_co.Sched.{
  Act, adds_new, adds_ready, adds_timer, stops, writes, Work, Scheduler, Script, Ready, ready,
  length, run_timers, iterate, handle_events,
}
use tit_co.Sched.Loop.{after_tasks, going}
use tit_co.Sched.Kept.{Fine, resume_late-Keeps, handle_events-Keeps, run_tasks-Keeps}

-- A wait, as `epoll_wait` takes it, that has a limit if there is a timer: as an `int` it is not
-- negative.
abbrev pub Limited : ℕ → List Entry → Type 0
Limited w [] = Unit
Limited w (x ∷ xs) = w < 2 ^ 31

limited : (w : ℕ) (xs : List Entry) → w < 2 ^ 31 → Limited w xs
limited w [] h = tt
limited w (x ∷ xs) h = h

-- A wait of `w` from `n` on is over before the first timer is overdue.
abbrev pub InTime : ℕ → ℕ → TimerManager → Type 0
InTime n w t = Above (w + n) t.timer × Limited w t.timer

abbrev Anytime : ℕ → ℕ → Type 0
Anytime now ms = Unit

any_acts : (done : List Act) → All (Fine Anytime) done
any_acts [] = tt
any_acts (adds_timer now ms ∷ more) = (tt, any_acts more)
any_acts (adds_new f ∷ more) = (tt, any_acts more)
any_acts (adds_ready co ∷ more) = (tt, any_acts more)
any_acts (stops ∷ more) = (tt, any_acts more)
any_acts (writes st ∷ more) = (tt, any_acts more)

-- A timer of less than 2 ^ 31 milliseconds that is added at `n` or later.
abbrev pub From : ℕ → ℕ → ℕ → Type 0
From n now ms = (n ≤ now) × (ms < 2 ^ 31)

shorter : (w ms : ℕ) → ((if ltb ms w then ms else w) ≤ w) × ((if ltb ms w then ms else w) ≤ ms)
shorter w ms = ground arith

InTime-adds :
    (n w : ℕ) (t t' : TimerManager) (now ms co h : ℕ)
    → From n now ms
    → InTime n w t
    → add_timer t now ms co ≡ some (t', h)
    → InTime n (if ltb ms w then ms else w) t'
InTime-adds n w t t' now ms co h (late, short) (a, l) e =
    let less = shorter w ms in
    let next = if ltb ms w then ms else w in
    (
      add_timer-Above (next + n) t t' now ms co h (omega (arith, less.1, late))
          (Above-mono (next + n) (w + n) t.timer (omega (arith, less.0)) a) e,
      limited next t'.timer (omega (arith, less.1, short)),
    )

-- The collection at `n`, of timers in order.
collected :
    (t : TimerManager) (n : ℕ) (s : Store)
    → Above 0 t.timer
    → All (λ x. x.deadline < n + 2 ^ 31) (collect t (λ _. n) s).timers.timer
    → InTime n (collect t (λ _. n) s).result (collect t (λ _. n) s).timers
collected t n s sorted near =
    by_first (collect t (λ _. n) s).timers.timer refl (collect-Above t n s sorted) near
  where
    by_first :
        (xs : List Entry)
        → (collect t (λ _. n) s).timers.timer ≡ xs
        → Above (suc n) xs
        → All (λ x. x.deadline < n + 2 ^ 31) xs
        → InTime n (collect t (λ _. n) s).result (collect t (λ _. n) s).timers
    by_first [] e a near =
        let r = (collect t (λ _. n) s).result in
        subst (λ ys. Above (r + n) ys × Limited r ys) (sym e) (tt, tt)
    by_first (x ∷ xs) e a near =
        let r = (collect t (λ _. n) s).result in
        let (later, same, small) = waits_sorted t n s x xs sorted e near.0 in
        subst (λ ys. Above (r + n) ys × Limited r ys) (sym e) ((omega (arith, same), a.1), small)

module _ (script : Script) (s : Scheduler) (es : List Ready) (n : ℕ) where
  -- The timers that the collection of this round leaves.
  abbrev pub left : List Entry
  left =
      (collect (after_tasks script s es).timers (λ _. n)
        (after_tasks script s es).store).timers.timer

  mid-sorted : Above 0 s.timers.timer → Above 0 (after_tasks script s es).timers.timer
  mid-sorted sorted =
      let fine : (i : ℕ) (w : Work) → 0 ≤ i → All (Fine Anytime) (script i w).0 =
        λ i w h. any_acts (script i w).0 in
      let Sorted : ℕ → TimerManager → Type 0 = λ w t. Above 0 t.timer in
      let adds : (w : ℕ) (t t' : TimerManager) (now ms co h : ℕ)
          → Anytime now ms
          → Above 0 t.timer
          → add_timer t now ms co ≡ some (t', h)
          → Above 0 t'.timer =
        λ w t t' now ms co h any a e. add_timer-Above 0 t t' now ms co h (omega arith) a e in
      (run_tasks-Keeps Sorted Anytime adds script 0 fine (handle_events script s es)
        (handle_events-Keeps Sorted Anytime adds script 0 fine s es (sorted, omega arith))).0

  -- A round of a loop that has not been stopped and that does nothing undefined (no timer is put in
  -- at a position that dangles), whose timers are in order, with a collection at
  -- the moment `n` that leaves only timers due within 2 ^ 31 milliseconds, and in which what is
  -- resumed after the collection adds timers of less than that, at `n` or later. Then the timers
  -- are in order again, and a wait of `wait_ms` that began at `n` is over by the time that the
  -- first of them is due; and `wait_ms` is a wait with a limit if there is a timer.
  pub no_oversleep :
      s.stop ≡ false
      → Above 0 s.timers.timer
      → All (λ x. x.deadline < n + 2 ^ 31) left
      → ((i : ℕ) (w : Work)
          → length (after_tasks script s es).log ≤ i
          → All (Fine (From n)) (script i w).0)
      → (iterate script s (ready es) (λ _. n)).undefined ≡ false
      → InTime n
          (iterate script s (ready es) (λ _. n)).wait_ms
          (iterate script s (ready es) (λ _. n)).timers
  unfolding run_timers
  no_oversleep go sorted near fine sound =
      let mid = after_tasks script s es in
      let c = collect mid.timers (λ _. n) mid.store in
      let kept =
        resume_late-Keeps (InTime n) (From n) (InTime-adds n) script (length mid.log) fine
          (record mid { wait_ms = c.result; timers = c.timers; store = c.store }) c.tasks
          (collected mid.timers n mid.store (mid-sorted sorted) near, omega arith) in
      subst (λ (t : Scheduler). InTime n t.wait_ms t.timers) (sym (going script s es (λ _. n) go))
        kept.0
