-- ===== src/Sched/Loop.antt =====
-- What one round of the loop of src/scheduler.cc resumes, in which order, and with which flag.
use tit_co.Base.{map, ℕ, true, false, if◌then◌else◌, ◌≡◌, subst₂, ap, ◌∙◌, ◌+◌, none, List, ◌++◌}
use tit_co.Task.{no_tasks}
use tit_co.Sched.{
  Act, length, Work, starts, continues, Scheduler, Script, Ready, handle_events, run_tasks,
  run_timers, ready, iterate,
}
use tit_co.Sched.Added.{flagged, length-flagged, all_due, news_of, readies_of, added}
use tit_co.Sched.Ran.{added-later, Worked, handle_events-Worked, run_tasks-Worked}

-- What a round of `s` starts and resumes, in this order: the coroutines of the events, the tasks that
-- were new when it began and those that these coroutines added, the ready coroutines and those that
-- were added likewise.
abbrev pub started : Script → Scheduler → List Ready → List ℕ
started script s es = s.tasks.new_tasks ++ added news_of script (length s.log) (all_due s.id es)

abbrev pub continued : Script → Scheduler → List Ready → List ℕ
continued script s es =
    s.tasks.ready_tasks ++ added readies_of script (length s.log) (all_due s.id es)

abbrev pub worked : Script → Scheduler → List Ready → List Work
worked script s es = map starts (started script s es) ++ map continues (continued script s es)

-- `next` comes after a round of `s` in which the timers of `late` were due.
pub record IsRound (script : Script) (s : Scheduler) (es : List Ready) (late : List ℕ)
    (next : Scheduler) : Type 0 where
  pub logged :
      next.log
      ≡ s.log
        ++ (flagged false (all_due s.id es)
            ++ (flagged false (worked script s es) ++ flagged true (map continues late)))
  pub left_new :
      next.tasks.new_tasks
      ≡ added news_of script
          (length s.log + length (all_due s.id es))
          (worked script s es ++ map continues late)
  pub left_ready :
      next.tasks.ready_tasks
      ≡ added readies_of script
          (length s.log + length (all_due s.id es))
          (worked script s es ++ map continues late)
  pub flag_down : next.timeout ≡ false
  pub nobody : next.running_co ≡ none

module _ (script : Script) where
  -- The scheduler after the events of a round, and after its tasks.
  abbrev pub after_events : Scheduler → List Ready → Scheduler
  after_events s es = handle_events script s es

  abbrev pub after_tasks : Scheduler → List Ready → Scheduler
  after_tasks s es = run_tasks script (after_events s es)

  pub going :
      (s : Scheduler) (es : List Ready) (now : ℕ → ℕ)
      → s.stop ≡ false
      → iterate script s (ready es) now
        ≡ record (run_timers script (after_tasks s es) now) { running_co = none }
  unfolding iterate
  going s es now go =
      ap
        (λ b.
          if b then s else record (run_timers script (after_tasks s es) now) { running_co = none })
        go

  -- The tasks of a round, which were taken together.
  tasks-Worked :
      (s : Scheduler) (es : List Ready)
      → Worked script
          (record (after_events s es) { tasks = no_tasks })
          (after_tasks s es)
          (worked script s es)
  tasks-Worked s es =
      let first = handle_events-Worked script s es in
      subst₂
        (λ ns rs.
          Worked script (record (after_events s es) { tasks = no_tasks }) (after_tasks s es)
            (map starts ns ++ map continues rs))
        first.news first.readies (run_tasks-Worked script (after_events s es))

  after_events-log :
      (s : Scheduler) (es : List Ready)
      → length (after_events s es).log ≡ length s.log + length (all_due s.id es)
  after_events-log s es =
      let first = handle_events-Worked script s es in
      ap length first.logged ∙ length-flagged s.log s.timeout (all_due s.id es)

  -- What the tasks added, and then the coroutines whose timers were due.
  left :
      (pick : List Act → List ℕ) (s : Scheduler) (es : List Ready) (late : List Work)
      → added pick script (length (after_events s es).log) (worked script s es)
          ++ added pick script (length (after_tasks s es).log) late
        ≡ added pick script (length s.log + length (all_due s.id es)) (worked script s es ++ late)
  left pick s es late =
      added-later script pick (record (after_events s es) { tasks = no_tasks }) (after_tasks s es)
        (worked script s es) late (tasks-Worked s es).logged
      ∙ ap (λ n. added pick script n (worked script s es ++ late)) (after_events-log s es)
