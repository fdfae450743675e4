-- ===== src/Mutex.antt =====
-- include/mutex.h and src/mutex.cc: the mutex of coroutines, and coroutines that use it. The
-- thread mutex inside makes the part of each operation before the `Yield` or `AddReadyTask` one
-- step.
pub mod Exclusion
mod Tests
use tit_co.Base.{
  ℕ, ◌≡◌, Bool, true, false, ◌==◌, if◌then◌else◌, Option, none, some, List, [], ◌∷◌, ◌++◌,
}

-- `wait_queue_` holds coroutines by their ids, the oldest first.
pub record Mutex : Type 0 where
  pub lock : Bool
  pub wait_queue : List ℕ

abbrev pub create : Mutex
create = record { lock = false; wait_queue = [] }

-- `Lock` by the running coroutine: whether it yields.
unfoldable pub lock : Mutex → ℕ → Mutex × Bool
lock m co =
    if m.lock
    then (record m { wait_queue = m.wait_queue ++ co ∷ [] }, true)
    else (record m { lock = true }, false)

-- `UnLock`: the coroutine that it makes ready.
unfoldable pub unlock : Mutex → Mutex × Option ℕ
unlock m = elim m.wait_queue [
  | [] ↦ (record m { lock = false }, none)
  | co ∷ rest ↦ (record m { wait_queue = rest }, some co)
]

-- `TryLock`
unfoldable pub try_lock : Mutex → Mutex × Bool
try_lock m = if m.lock then (m, false) else (record m { lock = true }, true)

-- Where a coroutine is: outside, in `Lock` past the `Yield`, or in the section that it guards. One
-- that `UnLock` has made ready returns from `Lock` when it is resumed, so it counts as inside.
pub data Place : Type 0 where
  outside waiting inside : Place

pub record System : Type 0 where
  pub mutex : Mutex
  pub place : ℕ → Place

abbrev pub update : (ℕ → Place) → ℕ → Place → ℕ → Place
update f i p j = if i == j then p else f j

abbrev pub move_ready : (ℕ → Place) → Option ℕ → ℕ → Place
move_ready f none = f
move_ready f (some co) = update f co inside

unfoldable pub locked : System → ℕ → System
unfolding lock
locked s i =
    let (m, yields) = lock s.mutex i in
    record { mutex = m; place = update s.place i (if yields then waiting else inside) }

unfoldable pub tried : System → ℕ → System
unfolding try_lock
tried s i =
    let (m, won) = try_lock s.mutex in
    record { mutex = m; place = update s.place i (if won then inside else outside) }

unfoldable pub unlocked : System → ℕ → System
unfolding unlock
unlocked s i =
    let (m, ready) = unlock s.mutex in
    record { mutex = m; place = move_ready (update s.place i outside) ready }

-- Coroutine `i` takes a step. Only a coroutine inside calls `UnLock`, as `MutexGuard` does. Where
-- there are stale timers, `late` is the other way out of the `Yield` of `Lock`: the timer of a wait
-- that the coroutine began elsewhere, and that nobody deleted, falls due and resumes it.
pub data Step (stale : Bool) (s t : System) : Type 0 where
  locks : (i : ℕ) → s.place i ≡ outside → t ≡ locked s i → Step stale s t
  tries : (i : ℕ) → s.place i ≡ outside → t ≡ tried s i → Step stale s t
  unlocks : (i : ℕ) → s.place i ≡ inside → t ≡ unlocked s i → Step stale s t
  late :
      (i : ℕ)
      → stale ≡ true
      → s.place i ≡ waiting
      → t ≡ record s { place = update s.place i inside }
      → Step stale s t

pub data Reach (stale : Bool) (s : System) : System → Type 0 where
  here : Reach stale s s
  next : {t u : System} → Reach stale s t → Step stale t u → Reach stale s u

abbrev pub start : System
start = record { mutex = create; place = λ _. outside }
