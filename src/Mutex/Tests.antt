-- ===== src/Mutex/Tests.antt =====
-- Three coroutines at one mutex: 1 is inside, 2 and then 3 wait.
use tit_co.Base.{ℕ, ◌≡◌, refl, false, true, ◌⊎◌, [], ◌∷◌, count}
use tit_co.Mutex.{inside, System, locked, unlocked, locks, unlocks, Reach, here, next, start}
use tit_co.Mutex.Exclusion.{exclusion, not_forgotten, fifo, Advances, Enters}

abbrev crowd : System
unfolding locked
crowd = locked (locked (locked start 1) 2) 3

crowd-Reach : Reach false start crowd
unfolding locked
crowd-Reach = next (next (next here (locks 1 refl refl)) (locks 2 refl refl)) (locks 3 refl refl)

crowd-queue : crowd.mutex.wait_queue ≡ 2 ∷ 3 ∷ []
unfolding locked
crowd-queue = refl

exclusion_example : ◌≡◌ {A = ℕ} 1 1 × (crowd.mutex.lock ≡ true)
unfolding locked
exclusion_example = exclusion crowd-Reach 1 1 refl refl

not_forgotten_example : (count 3 crowd.mutex.wait_queue ≡ 1) × ((j : ℕ) × (crowd.place j ≡ inside))
unfolding locked
not_forgotten_example = not_forgotten crowd-Reach 3 refl

-- Coroutine 1 unlocks, and 3 has one fewer before it.
fifo_example : Advances 3 crowd (unlocked crowd 1) ⊎ Enters 3 crowd (unlocked crowd 1)
unfolding locked
fifo_example = fifo crowd-Reach (unlocks 1 refl refl) 3 refl
