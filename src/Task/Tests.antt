-- ===== src/Task/Tests.antt =====
-- A history of additions and collections.
use tit_co.Base.{◌≡◌, refl, List, [], ◌∷◌}
use tit_co.Task.{History, Call, adds_new, adds_ready, collects, run, all_new, run_lem}

abbrev idle : History
idle = record { manager = record { new_tasks = []; ready_tasks = [] }; started = []; resumed = [] }

abbrev calls : List Call
calls = adds_new 1 ∷ adds_ready 7 ∷ adds_new 2 ∷ collects ∷ adds_new 3 ∷ []

run-calls : run idle calls ≡ record {
  manager = record { new_tasks = 3 ∷ []; ready_tasks = [] };
  started = 1 ∷ 2 ∷ [];
  resumed = 7 ∷ [];
}
unfolding run
run-calls = refl

run_lem_example : all_new (run idle calls) ≡ 1 ∷ 2 ∷ 3 ∷ []
run_lem_example = (run_lem calls idle).0
