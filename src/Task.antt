-- ===== src/Task.antt =====
-- src/task_manager.cc: the tasks that other threads hand to a scheduler. Each operation holds the
-- lock from its first line to its last, so it is one step.
mod Tests
use tit_co.Base.{ℕ, ◌≡◌, refl, sym, List, [], ◌∷◌, ◌++◌, append-nil, append_assoc, arith}

-- `new_tasks_` holds closures, `ready_tasks_` coroutines; both are numbered here.
pub record TaskManager : Type 0 where
  pub new_tasks : List ℕ
  pub ready_tasks : List ℕ

unfoldable pub add_new_tasks : ℕ → TaskManager → TaskManager
add_new_tasks func m = record m { new_tasks = m.new_tasks ++ func ∷ [] }

unfoldable pub add_ready_tasks : ℕ → TaskManager → TaskManager
add_ready_tasks co m = record m { ready_tasks = m.ready_tasks ++ co ∷ [] }

-- `std::swap`, unless the manager's list is empty: the manager's list, then the caller's.
abbrev swap_unless_empty : List ℕ → List ℕ → List ℕ × List ℕ
swap_unless_empty [] theirs = ([], theirs)
swap_unless_empty (x ∷ xs) theirs = (theirs, x ∷ xs)

-- `GetAllTasks` with the caller's two lists, which it fills.
unfoldable pub get_all_tasks : TaskManager → List ℕ → List ℕ → TaskManager × List ℕ × List ℕ
get_all_tasks m new_tasks ready_tasks =
    let (kept_new, out_new) = swap_unless_empty m.new_tasks new_tasks in
    let (kept_ready, out_ready) = swap_unless_empty m.ready_tasks ready_tasks in
    (record { new_tasks = kept_new; ready_tasks = kept_ready }, out_new, out_ready)

swap_lem : (xs : List ℕ) → swap_unless_empty xs [] ≡ ([], xs)
swap_lem [] = refl
swap_lem (x ∷ xs) = refl

abbrev pub no_tasks : TaskManager
no_tasks = record { new_tasks = []; ready_tasks = [] }

-- The loop's lists are empty when it collects, so that it gets all tasks and leaves none.
pub get_all_tasks_lem :
    (m : TaskManager) → get_all_tasks m [] [] ≡ (no_tasks, m.new_tasks, m.ready_tasks)
unfolding get_all_tasks
get_all_tasks_lem m = cc (swap_lem m.new_tasks, swap_lem m.ready_tasks)

pub data Call : Type 0 where
  adds_new adds_ready : ℕ → Call
  collects : Call

-- The manager, and what the loop has resumed so far. The loop clears its two lists after each
-- round, so it collects into empty ones.
pub record History : Type 0 where
  pub manager : TaskManager
  pub started : List ℕ
  pub resumed : List ℕ

unfoldable pub step : History → Call → History
unfolding add_new_tasks add_ready_tasks get_all_tasks
step h (adds_new func) = record h { manager = add_new_tasks func h.manager }
step h (adds_ready co) = record h { manager = add_ready_tasks co h.manager }
step h collects =
    let (m, new_tasks, ready_tasks) = get_all_tasks h.manager [] [] in
    record { manager = m; started = h.started ++ new_tasks; resumed = h.resumed ++ ready_tasks }

unfoldable pub run : History → List Call → History
unfolding step
run h [] = h
run h (c ∷ cs) = run (step h c) cs

-- What was added, in order.
abbrev pub news : List Call → List ℕ
news [] = []
news (adds_new func ∷ cs) = func ∷ news cs
news (adds_ready co ∷ cs) = news cs
news (collects ∷ cs) = news cs

abbrev pub readies : List Call → List ℕ
readies [] = []
readies (adds_new func ∷ cs) = readies cs
readies (adds_ready co ∷ cs) = co ∷ readies cs
readies (collects ∷ cs) = readies cs

abbrev pub all_new : History → List ℕ
all_new h = h.started ++ h.manager.new_tasks

abbrev pub all_ready : History → List ℕ
all_ready h = h.resumed ++ h.manager.ready_tasks

collect_lem :
    (xs done : List ℕ)
    → let (kept, out) = swap_unless_empty xs [] in (kept ≡ []) × (done ++ out ≡ done ++ xs)
collect_lem [] done = (refl, refl)
collect_lem (x ∷ xs) done = (refl, refl)

step_lem :
    (h : History) (c : Call)
    → (all_new (step h c) ≡ all_new h ++ news (c ∷ []))
      × (all_ready (step h c) ≡ all_ready h ++ readies (c ∷ []))
unfolding step
step_lem h (adds_new func) =
    (sym (append_assoc h.started h.manager.new_tasks (func ∷ [])), sym (append-nil (all_ready h)))
step_lem h (adds_ready co) =
    (sym (append-nil (all_new h)), sym (append_assoc h.resumed h.manager.ready_tasks (co ∷ [])))
step_lem h collects =
    let m = h.manager in
    (
      ground (
        arith,
        collect_lem m.new_tasks h.started,
        append-nil (all_new h),
        append-nil (h.started ++ (swap_unless_empty m.new_tasks []).1),
      ),
      ground (
        arith,
        collect_lem m.ready_tasks h.resumed,
        append-nil (all_ready h),
        append-nil (h.resumed ++ (swap_unless_empty m.ready_tasks []).1),
      ),
    )

news-cons : (c : Call) (cs : List Call) → news (c ∷ cs) ≡ news (c ∷ []) ++ news cs
news-cons (adds_new func) cs = refl
news-cons (adds_ready co) cs = refl
news-cons collects cs = refl

readies-cons : (c : Call) (cs : List Call) → readies (c ∷ cs) ≡ readies (c ∷ []) ++ readies cs
readies-cons (adds_new func) cs = refl
readies-cons (adds_ready co) cs = refl
readies-cons collects cs = refl

-- However additions and collections interleave, each task is started, or resumed, at most once and
-- in the order of the additions, and what is not yet collected is still with the manager: the
-- tasks handed out and those left make up those that there were and those that were added.
pub run_lem :
    (cs : List Call) (h : History)
    → (all_new (run h cs) ≡ all_new h ++ news cs)
      × (all_ready (run h cs) ≡ all_ready h ++ readies cs)
unfolding run
run_lem [] h = (sym (append-nil (all_new h)), sym (append-nil (all_ready h)))
run_lem (c ∷ cs) h =
    let ih = run_lem cs (step h c) in
    let one = step_lem h c in
    (
      rw (ih.0, one.0, news-cons c cs) (append_assoc (all_new h) (news (c ∷ [])) (news cs)),
      rw (ih.1, one.1, readies-cons c cs)
          (append_assoc (all_ready h) (readies (c ∷ [])) (readies cs)),
    )
