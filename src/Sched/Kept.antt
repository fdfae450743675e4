-- ===== src/Sched/Kept.antt =====
-- What the coroutines of src/scheduler.cc leave alone: properties of `wait_ms_` and the timers that
-- every addition of a timer keeps.
use tit_co.Base.{
  map, ℕ, ◌≤◌, Bool, true, false, ltb, if◌then◌else◌, ◌≡◌, refl, Option, none, some, List, [], ◌∷◌,
  ◌++◌, All, arith,
}
use tit_co.Timer.{TimerManager, add_timer}
use tit_co.Task.{TaskManager, get_all_tasks}
use tit_co.Pool.{Copoll, pop}
use tit_co.Sched.{
  Work, starts, continues, Scheduler, Act, adds_new, adds_ready, adds_timer, stops, writes,
  add_sched_timer, act, acts, recycle, Script, switch, resume, resume_all, Ready, due,
  handle_events, run_tasks, length, timed, with_co, run_taken, timer_for, pushed, resume_late,
}

length-grows : {A : Type 0} → (xs ys : List A) → length xs ≤ length (xs ++ ys)
length-grows [] ys = omega arith
length-grows (x ∷ xs) ys = omega (arith, length-grows xs ys)

length-more : {A : Type 0} → (xs ys : List A) (m : ℕ) → m ≤ length xs → m ≤ length (xs ++ ys)
length-more xs ys m h = omega (arith, length-grows xs ys)

-- A script's act whose timer, if it adds one, is allowed: by the time of the clock and the wait.
abbrev pub Fine : (ℕ → ℕ → Type 0) → Act → Type 0
Fine Allowed (adds_timer now ms) = Allowed now ms
Fine Allowed _ = Unit

-- A property of `wait_ms_` and the timers that the additions of timers keep, those that a script
-- makes from its resume `m` on, is kept by all that resumes coroutines.
module _ (I : ℕ → TimerManager → Type 0) (Allowed : ℕ → ℕ → Type 0)
    (adds : (w : ℕ) (t t' : TimerManager) (now ms co h : ℕ)
      → Allowed now ms
      → I w t
      → add_timer t now ms co ≡ some (t', h)
      → I (if ltb ms w then ms else w) t')
    (script : Script) (m : ℕ) where
  abbrev pub Keeps : Scheduler → Type 0
  Keeps s = I s.wait_ms s.timers × (m ≤ length s.log)

  timed-Keeps :
      (s : Scheduler) (now ms co : ℕ) (o : Option (TimerManager × ℕ))
      → add_timer s.timers now ms co ≡ o
      → Allowed now ms
      → Keeps s
      → Keeps (timed s ms o)
  timed-Keeps s now ms co none e a k = k
  timed-Keeps s now ms co (some (t, h)) e a k = (adds s.wait_ms s.timers t now ms co h a k.0 e, k.1)

  timer_for-Keeps :
      (s : Scheduler) (now ms : ℕ) (running : Option ℕ)
      → Allowed now ms
      → Keeps s
      → Keeps (timer_for s now ms running)
  unfolding timer_for
  timer_for-Keeps s now ms none a k = k
  timer_for-Keeps s now ms (some co) a k =
      timed-Keeps s now ms co (add_timer s.timers now ms co) refl a k

  act-Keeps : (s : Scheduler) (a : Act) → Fine Allowed a → Keeps s → Keeps (act s a)
  unfolding act add_sched_timer
  act-Keeps s (adds_new func) f k = k
  act-Keeps s (adds_ready co) f k = k
  act-Keeps s (adds_timer now ms) f k = timer_for-Keeps s now ms s.running_co f k
  act-Keeps s stops f k = k
  act-Keeps s (writes store) f k = k

  acts-Keeps :
      (s : Scheduler) (done : List Act) → All (Fine Allowed) done → Keeps s → Keeps (acts s done)
  unfolding acts
  acts-Keeps s [] f k = k
  acts-Keeps s (a ∷ more) (f, fs) k = acts-Keeps (act s a) more fs (act-Keeps s a f k)

  pushed-Keeps : (s : Scheduler) (running : Option ℕ) → Keeps s → Keeps (pushed s running)
  unfolding pushed
  pushed-Keeps s none k = k
  pushed-Keeps s (some co) k = k

  finish-Keeps :
      (s : Scheduler) (returns : Bool) → Keeps s → Keeps (if returns then recycle s else s)
  unfolding recycle
  finish-Keeps s true k = pushed-Keeps s s.running_co k
  finish-Keeps s false k = k

  module _ (fine : (i : ℕ) (w : Work) → m ≤ i → All (Fine Allowed) (script i w).0) where
    switch-Keeps : (s : Scheduler) (w : Work) → Keeps s → Keeps (switch script s w)
    unfolding switch
    switch-Keeps s w k =
        let (done, returns) = script (length s.log) w in
        let logged = record s { log = s.log ++ ((w, s.timeout) ∷ []) } in
        finish-Keeps (acts logged done) returns (
          acts-Keeps logged done (fine (length s.log) w k.1)
            (k.0, length-more s.log ((w, s.timeout) ∷ []) m k.1))

    with_co-Keeps : (s : Scheduler) (o : Option (ℕ × Copoll)) → Keeps s → Keeps (with_co script s o)
    with_co-Keeps s none k = k
    with_co-Keeps s (some (co, pool)) k = k

    resume-Keeps : (s : Scheduler) (w : Work) → Keeps s → Keeps (resume script s w)
    unfolding resume
    resume-Keeps s (continues co) k =
        switch-Keeps (record s { running_co = some co }) (continues co) k
    resume-Keeps s (starts func) k =
        switch-Keeps (with_co script s (pop s.pool)) (starts func) (with_co-Keeps s (pop s.pool) k)

    resume_all-Keeps : (s : Scheduler) (ws : List Work) → Keeps s → Keeps (resume_all script s ws)
    unfolding resume_all
    resume_all-Keeps s [] k = k
    resume_all-Keeps s (w ∷ ws) k = resume_all-Keeps (resume script s w) ws (resume-Keeps s w k)

    pub resume_late-Keeps :
        (s : Scheduler) (cos : List ℕ) → Keeps s → Keeps (resume_late script s cos)
    unfolding resume_late
    resume_late-Keeps s [] k = k
    resume_late-Keeps s (co ∷ cos) k =
        resume_all-Keeps (record s { timeout = true }) (map continues (co ∷ cos)) k

    pub handle_events-Keeps :
        (s : Scheduler) (es : List Ready) → Keeps s → Keeps (handle_events script s es)
    unfolding handle_events
    handle_events-Keeps s [] k = k
    handle_events-Keeps s (e ∷ es) k =
        handle_events-Keeps (resume_all script s (due s.id e)) es
          (resume_all-Keeps s (due s.id e) k)

    run_taken-Keeps :
        (s : Scheduler) (q : TaskManager × List ℕ × List ℕ) → Keeps s → Keeps (run_taken script s q)
    unfolding run_taken
    run_taken-Keeps s (tm, news, readies) k =
        resume_all-Keeps (resume_all script (record s { tasks = tm }) (map starts news))
          (map continues readies) (resume_all-Keeps (record s { tasks = tm }) (map starts news) k)

    pub run_tasks-Keeps : (s : Scheduler) → Keeps s → Keeps (run_tasks script s)
    unfolding run_tasks
    run_tasks-Keeps s k = run_taken-Keeps s (get_all_tasks s.tasks [] []) k
