-- ===== src/Sched/Ran.antt =====
-- What the steps of the loop of src/scheduler.cc resume, in which order, and with which flag.
use tit_co.Base.{
  map, ℕ, Bool, true, false, if◌then◌else◌, ◌≡◌, refl, sym, subst, ap, ap₂, subst₂, ◌∙◌, Option,
  none, some, List, [], ◌∷◌, ◌++◌, append-nil, append_assoc,
}
use tit_co.Task.{TaskManager, add_new_tasks, add_ready_tasks, no_tasks, get_all_tasks_lem}
use tit_co.Sched.Added.{
  flagged, flagged-append, length-flagged, all_due, news_of, readies_of, added, added-append,
}
use tit_co.Timer.{TimerManager, add_timer}
use tit_co.Pool.{Copoll, pop}
use tit_co.Sched.{
  Work, starts, continues, Scheduler, Act, adds_new, adds_ready, adds_timer, stops, writes,
  add_sched_timer, act, acts, recycle, Script, switch, resume, resume_all, Ready, due,
  handle_events, run_tasks, length, timed, with_co, run_taken, timer_for, pushed,
}

-- `t` comes after `s` by work that was resumed under the flag of `s`, and by the new tasks and the
-- ready coroutines that were added.
pub record Ran (s t : Scheduler) (ws : List Work) (ns rs : List ℕ) : Type 0 where
  pub logged : t.log ≡ s.log ++ flagged s.timeout ws
  pub same_flag : t.timeout ≡ s.timeout
  pub same_id : t.id ≡ s.id
  pub news : t.tasks.new_tasks ≡ s.tasks.new_tasks ++ ns
  pub readies : t.tasks.ready_tasks ≡ s.tasks.ready_tasks ++ rs

Ran-trans :
    (s t u : Scheduler) (ws vs : List Work) (ns rs ns' rs' : List ℕ)
    → Ran s t ws ns rs
    → Ran t u vs ns' rs'
    → Ran s u (ws ++ vs) (ns ++ ns') (rs ++ rs')
Ran-trans s t u ws vs ns rs ns' rs' p q = record {
  logged =
      q.logged
      ∙ ap₂ (λ l f. l ++ flagged f vs) p.logged p.same_flag
      ∙ append_assoc s.log (flagged s.timeout ws) (flagged s.timeout vs)
      ∙ ap (λ r. s.log ++ r) (sym (flagged-append s.timeout ws vs));
  same_flag = q.same_flag ∙ p.same_flag;
  same_id = q.same_id ∙ p.same_id;
  news = q.news ∙ ap (λ l. l ++ ns') p.news ∙ append_assoc s.tasks.new_tasks ns ns';
  readies = q.readies ∙ ap (λ l. l ++ rs') p.readies ∙ append_assoc s.tasks.ready_tasks rs rs';
}

-- A step that leaves log, flag, number and tasks alone.
still :
    (s t : Scheduler)
    → t.log ≡ s.log
    → t.timeout ≡ s.timeout
    → t.id ≡ s.id
    → t.tasks ≡ s.tasks
    → Ran s t [] [] []
still s t l f i k = record {
  logged = l ∙ sym (append-nil s.log);
  same_flag = f;
  same_id = i;
  news = ap (λ (m : TaskManager). m.new_tasks) k ∙ sym (append-nil s.tasks.new_tasks);
  readies = ap (λ (m : TaskManager). m.ready_tasks) k ∙ sym (append-nil s.tasks.ready_tasks);
}

timed-Ran : (s : Scheduler) (ms : ℕ) (o : Option (TimerManager × ℕ)) → Ran s (timed s ms o) [] [] []
timed-Ran s ms none = still s _ refl refl refl refl
timed-Ran s ms (some (t, handle)) = still s _ refl refl refl refl

timer-Ran :
    (s : Scheduler) (now ms : ℕ) (running : Option ℕ) → Ran s (timer_for s now ms running) [] [] []
unfolding timer_for
timer-Ran s now ms none = still s _ refl refl refl refl
timer-Ran s now ms (some co) = timed-Ran s ms (add_timer s.timers now ms co)

act-Ran : (s : Scheduler) (a : Act) → Ran s (act s a) [] (news_of (a ∷ [])) (readies_of (a ∷ []))
unfolding act add_sched_timer add_new_tasks add_ready_tasks
act-Ran s (adds_new func) = record {
  logged = sym (append-nil s.log);
  same_flag = refl;
  same_id = refl;
  news = refl;
  readies = sym (append-nil s.tasks.ready_tasks);
}
act-Ran s (adds_ready co) = record {
  logged = sym (append-nil s.log);
  same_flag = refl;
  same_id = refl;
  news = sym (append-nil s.tasks.new_tasks);
  readies = refl;
}
act-Ran s (adds_timer now ms) = timer-Ran s now ms s.running_co
act-Ran s stops = still s _ refl refl refl refl
act-Ran s (writes store) = still s _ refl refl refl refl

news_of-cons :
    (a : Act) (more : List Act)
    → (news_of (a ∷ []) ++ news_of more ≡ news_of (a ∷ more))
      × (readies_of (a ∷ []) ++ readies_of more ≡ readies_of (a ∷ more))
news_of-cons (adds_new func) more = (refl, refl)
news_of-cons (adds_ready co) more = (refl, refl)
news_of-cons (adds_timer now ms) more = (refl, refl)
news_of-cons stops more = (refl, refl)
news_of-cons (writes store) more = (refl, refl)

acts-Ran :
    (s : Scheduler) (done : List Act) → Ran s (acts s done) [] (news_of done) (readies_of done)
unfolding acts
acts-Ran s [] = still s s refl refl refl refl
acts-Ran s (a ∷ more) =
    let cons = news_of-cons a more in
    subst₂ (Ran s (acts (act s a) more) []) cons.0 cons.1 (
      Ran-trans s (act s a) (acts (act s a) more) [] [] _ _ _ _ (act-Ran s a)
        (acts-Ran (act s a) more))

recycle-Ran : (s : Scheduler) (running : Option ℕ) → Ran s (pushed s running) [] [] []
unfolding pushed
recycle-Ran s none = still s _ refl refl refl refl
recycle-Ran s (some co) = still s _ refl refl refl refl

module _ (script : Script) where
  -- `ws` ran after `s`, and what was added is what the script says that they add.
  abbrev pub Worked : Scheduler → Scheduler → List Work → Type 0
  Worked s t ws =
      Ran s t ws (added news_of script (length s.log) ws)
        (added readies_of script (length s.log) ws)

  pub added-later :
      (pick : List Act → List ℕ) (s t : Scheduler) (us vs : List Work)
      → t.log ≡ s.log ++ flagged s.timeout us
      → added pick script (length s.log) us ++ added pick script (length t.log) vs
        ≡ added pick script (length s.log) (us ++ vs)
  added-later pick s t us vs h =
      ap (λ n. added pick script (length s.log) us ++ added pick script n vs)
        (ap length h ∙ length-flagged s.log s.timeout us)
      ∙ added-append pick script (length s.log) us vs

  pub Worked-trans :
      (s t u : Scheduler) (ws vs : List Work)
      → Worked s t ws
      → Worked t u vs
      → Worked s u (ws ++ vs)
  Worked-trans s t u ws vs p q =
      subst₂ (Ran s u (ws ++ vs)) (added-later news_of s t ws vs p.logged)
        (added-later readies_of s t ws vs p.logged) (Ran-trans s t u ws vs _ _ _ _ p q)

  finish-Ran :
      (s t : Scheduler) (w : Work) (returns : Bool) (ns rs : List ℕ)
      → Ran s t (w ∷ []) ns rs
      → Ran s (if returns then recycle t else t) (w ∷ []) ns rs
  unfolding recycle
  finish-Ran s t w true ns rs h =
      subst₂ (Ran s (recycle t) (w ∷ [])) (append-nil ns) (append-nil rs)
        (Ran-trans s t _ (w ∷ []) [] _ _ _ _ h (recycle-Ran t t.running_co))
  finish-Ran s t w false ns rs h = h

  switch-Worked : (s : Scheduler) (w : Work) → Worked s (switch script s w) (w ∷ [])
  unfolding switch
  switch-Worked s w =
      let (done, returns) = script (length s.log) w in
      let logged = record s { log = s.log ++ ((w, s.timeout) ∷ []) } in
      subst₂ (Ran s (switch script s w) (w ∷ [])) (sym (append-nil (news_of done)))
        (sym (append-nil (readies_of done)))
        (finish-Ran s (acts logged done) w returns _ _ (
          Ran-trans s logged (acts logged done) (w ∷ []) [] [] [] _ _
            (record {
              logged = refl;
              same_flag = refl;
              same_id = refl;
              news = sym (append-nil s.tasks.new_tasks);
              readies = sym (append-nil s.tasks.ready_tasks);
            })
            (acts-Ran logged done)))

  with_co-Ran : (s : Scheduler) (o : Option (ℕ × Copoll)) → Ran s (with_co script s o) [] [] []
  with_co-Ran s none = still s _ refl refl refl refl
  with_co-Ran s (some (co, pool)) = still s _ refl refl refl refl

  resume-Worked : (s : Scheduler) (w : Work) → Worked s (resume script s w) (w ∷ [])
  unfolding resume
  resume-Worked s (continues co) =
      let t = record s { running_co = some co } in
      Worked-trans s t _ [] (continues co ∷ []) (still s t refl refl refl refl)
        (switch-Worked t (continues co))
  resume-Worked s (starts func) =
      let t = with_co script s (pop s.pool) in
      Worked-trans s t _ [] (starts func ∷ []) (with_co-Ran s (pop s.pool))
        (switch-Worked t (starts func))

  pub resume_all-Worked : (s : Scheduler) (ws : List Work) → Worked s (resume_all script s ws) ws
  unfolding resume_all
  resume_all-Worked s [] = still s s refl refl refl refl
  resume_all-Worked s (w ∷ ws) =
      let t = resume script s w in
      Worked-trans s t (resume_all script t ws) (w ∷ []) ws (resume-Worked s w)
        (resume_all-Worked t ws)

  pub handle_events-Worked :
      (s : Scheduler) (es : List Ready) → Worked s (handle_events script s es) (all_due s.id es)
  unfolding handle_events
  handle_events-Worked s [] = still s s refl refl refl refl
  handle_events-Worked s (e ∷ es) =
      let t = resume_all script s (due s.id e) in
      let first = resume_all-Worked s (due s.id e) in
      Worked-trans s t _ (due s.id e) (all_due s.id es) first (
        subst (λ i. Worked t (handle_events script t es) (all_due i es)) first.same_id
          (handle_events-Worked t es))

  pub run_tasks-Worked :
      (s : Scheduler)
      → Worked
          (record s { tasks = no_tasks })
          (run_tasks script s)
          (map starts s.tasks.new_tasks ++ map continues s.tasks.ready_tasks)
  unfolding run_tasks run_taken
  run_tasks-Worked s =
      let news = map starts s.tasks.new_tasks in
      let readies = map continues s.tasks.ready_tasks in
      let taken = record s { tasks = no_tasks } in
      let started = resume_all script taken news in
      subst
        (λ (q : TaskManager × List ℕ × List ℕ).
          Worked taken (run_taken script s q) (news ++ readies))
        (sym (get_all_tasks_lem s.tasks))
        (Worked-trans taken started (resume_all script started readies) news readies
          (resume_all-Worked taken news) (resume_all-Worked started readies))
