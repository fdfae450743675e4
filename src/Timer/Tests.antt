-- ===== src/Timer/Tests.antt =====
-- The timers' theorems at concrete states.
use mathlib.Core.List.{Perm}
use tit_co.Base.{ℕ, ◌+◌, ◌≡◌, refl, true, ltb, if◌then◌else◌, none, some, List, [], ◌∷◌, arith}
use tit_co.CoState.{Store, k_init, k_ready, expire}
use tit_co.Timer.{
  Entry, TimerManager, has, add_timer, sweep, wait_ms, collect, insert, insert_at, insert_lower,
}
use tit_co.Timer.Bag.{Op, adds, collects, step, run, bag, bag_run, run_refines}
use tit_co.Timer.Insert.{IsValid, add_timer_lem}
use tit_co.Timer.Collect.{collect_dangles}

abbrev sleep : ℕ → ℕ → ℕ → Entry
sleep handle deadline co = record { handle = handle; deadline = deadline; co = co }

-- Coroutine 1 waits until 10, 2 until 20 and 3 until 20; the position is at the last addition.
abbrev three : TimerManager
three = record { timer = sleep 1 10 1 ∷ sleep 0 20 2 ∷ sleep 2 20 3 ∷ []; it = some 1; fresh = 3 }

three-IsValid : IsValid three
three-IsValid = record { sorted = omega arith; position = refl }

-- 1 waits on a channel, which has woken it already; 2 sleeps; 3 waits on a channel.
abbrev states : Store
states = record {
  wait_ctx = λ co. if ltb co 2 then some 7 else (if ltb co 3 then none else some 8);
  ctx_state = λ w. if ltb w 8 then k_ready else k_init;
  co_state = λ _. k_init;
}

collected : (collect three (λ i. 15 + i) states).tasks ≡ 1 ∷ []
unfolding collect sweep wait_ms expire
collected = refl

add_timer_lem_example :
    (t' : TimerManager) × (add_timer three 0 15 4 ≡ some (t', 3))
    × IsValid t'
    × Perm t'.timer (sleep 3 15 4 ∷ three.timer)
    × (has 3 t'.timer ≡ true)
add_timer_lem_example = add_timer_lem three 0 15 4 three-IsValid

collect_dangles_example : add_timer (collect three (λ _. 15) states).timers 15 5 4 ≡ none
unfolding collect sweep
collect_dangles_example = collect_dangles three 15 states 1 three-IsValid refl refl 15 5 4

-- A fourth timer is due at 15, and a collection at that moment leaves the two that are due at 20.
abbrev ops : List Op
ops = adds 0 15 4 ∷ collects 15 states ∷ []

abbrev left : TimerManager
left = record { timer = sleep 0 20 2 ∷ sleep 2 20 3 ∷ []; it = some 3; fresh = 4 }

run-ops : run three ops ≡ some left
unfolding run step collect sweep expire add_timer insert insert_at insert_lower
run-ops = refl

run_refines_example : bag left ≡ bag_run (bag three) ops
run_refines_example = run_refines three left ops (omega arith) run-ops
