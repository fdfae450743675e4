-- ===== src/Sys/Lock.antt =====
-- include/base/mutex.h: `MutexLock` and `MutexLockGuard` over a recursive mutex of pthread.
use tit_co.Base.{
  ℕ, suc, ◌-◌, ◌==◌, if◌then◌else◌, Bool, true, false, ◌≡◌, ◌≢◌, ◌↔◌, refl, Option, none, some,
  List, [], ◌∷◌, arith,
}

-- `pthread_mutex_t` of the recursive kind: its owner, and how often the owner has it. The holder is
-- a thread's number, which is not 0, or 0.
pub record MutexLock : Type 0 where
  pub owner : Option ℕ
  pub depth : ℕ
  pub holder : ℕ

abbrev pub create : MutexLock
create = record { owner = none; depth = 0; holder = 0 }

-- The steps of the threads: `Lock` (its return), and the two halves of `UnLock`.
pub data Move : Type 0 where
  locks clears releases : Move

abbrev pub owns : MutexLock → ℕ → Bool
owns m t = elim m.owner [ none ↦ false | some u ↦ u == t ]

abbrev pub taken_by : MutexLock → ℕ → MutexLock
taken_by m t = record { owner = some t; depth = suc m.depth; holder = t }

-- `none` while the call waits, and for an `UnLock` by a thread that does not own the mutex.
unfoldable pub step : MutexLock → Move → ℕ → Option MutexLock
step m locks t = elim m.owner [
  | none ↦ some (taken_by m t)
  | some u ↦ if u == t then some (taken_by m t) else none
]
step m clears t = if owns m t then some (record m { holder = 0 }) else none
step m releases t =
    if owns m t
    then some (record m { owner = if m.depth == 1 then none else m.owner; depth = m.depth - 1 })
    else none

-- `IsLockedByThisThread`
unfoldable pub is_locked_by : MutexLock → ℕ → Bool
is_locked_by m t = m.holder == t

-- What each thread is at: outside, behind a `Lock`, or between the halves of an `UnLock`.
pub data Phase : Type 0 where
  outside inside leaving : Phase

-- Threads that do not nest their locks, and the lock that they share.
pub record System : Type 0 where
  pub lock : MutexLock
  pub phase : ℕ → Phase

abbrev pub set_phase : (ℕ → Phase) → ℕ → Phase → ℕ → Phase
set_phase f t p u = if t == u then p else f u

abbrev moved : System → ℕ → Phase → Option MutexLock → Option System
moved s t p none = none
moved s t p (some m) = some (record { lock = m; phase = set_phase s.phase t p })

-- A thread locks from outside and unlocks, in two halves, from inside.
unfoldable pub go : System → Move → ℕ → Option System
unfolding step
go s locks t = elim (s.phase t) [ outside ↦ moved s t inside (step s.lock locks t) | _ ↦ none ]
go s clears t = elim (s.phase t) [ inside ↦ moved s t leaving (step s.lock clears t) | _ ↦ none ]
go s releases t = elim (s.phase t) [
  | leaving ↦ moved s t outside (step s.lock releases t)
  | _ ↦ none
]

-- The states that steps of threads lead to, from the new lock. Threads have no number 0.
pub data Reach : System → Type 0 where
  fresh : Reach (record { lock = create; phase = λ t. outside })
  next : {s s' : System} (move : Move) (t : ℕ) → t ≢ 0 → go s move t ≡ some s' → Reach s → Reach s'

record IsHeld (s : System) : Type 0 where
  free : s.lock.owner ≡ none → (s.lock.holder ≡ 0) × (s.lock.depth ≡ 0)
  alone : (t : ℕ) → s.phase t ≢ outside → s.lock.owner ≡ some t
  at_inside : (t : ℕ) → s.phase t ≡ inside → (s.lock.holder ≡ t) × (s.lock.depth ≡ 1)
  at_leaving : (t : ℕ) → s.phase t ≡ leaving → (s.lock.holder ≡ 0) × (s.lock.depth ≡ 1)
  owner_in : (t : ℕ) → s.lock.owner ≡ some t → s.phase t ≢ outside

go-IsHeld :
    (s s' : System) (move : Move) (t : ℕ) → t ≢ 0 → go s move t ≡ some s' → IsHeld s → IsHeld s'
unfolding go step
go-IsHeld s s' locks t nz e h = record {
  free = ground (arith, h.alone t, h.owner_in t);
  alone = λ u. ground (arith, h.alone t, h.alone u, h.owner_in t, h.free);
  at_inside = λ u. ground (arith, h.alone t, h.alone u, h.owner_in t, h.free, h.at_inside u);
  at_leaving = λ u. ground (arith, h.alone t, h.alone u, h.owner_in t, h.free, h.at_leaving u);
  owner_in = λ u. ground (arith, h.alone t, h.alone u, h.owner_in t, h.owner_in u);
}
go-IsHeld s s' clears t nz e h = record {
  free = ground (arith, h.alone t, h.owner_in t);
  alone = λ u. ground (arith, h.alone t, h.alone u, h.owner_in t, h.free);
  at_inside = λ u. ground (arith, h.alone t, h.alone u, h.owner_in t, h.free, h.at_inside u);
  at_leaving = λ u.
      ground (arith, h.alone t, h.alone u, h.owner_in t, h.free, h.at_leaving u, h.at_inside u);
  owner_in = λ u. ground (arith, h.alone t, h.alone u, h.owner_in t, h.owner_in u);
}
go-IsHeld s s' releases t nz e h = record {
  free = ground (arith, h.alone t, h.owner_in t, h.at_leaving t);
  alone = λ u. ground (arith, h.alone t, h.alone u, h.owner_in t, h.free);
  at_inside = λ u. ground (arith, h.alone t, h.alone u, h.owner_in t, h.free, h.at_inside u);
  at_leaving = λ u.
      ground (arith, h.alone t, h.alone u, h.owner_in t, h.free, h.at_leaving u, h.at_inside u);
  owner_in = λ u. ground (arith, h.alone t, h.alone u, h.owner_in t, h.owner_in u, h.at_leaving t);
}

Reach-IsHeld : {s : System} → Reach s → IsHeld s
Reach-IsHeld fresh = ground arith
Reach-IsHeld (next {s} {s'} move t nz e r) = go-IsHeld s s' move t nz e (Reach-IsHeld r)

holder-inside :
    {s : System} (h : IsHeld s) (t : ℕ) (owner : Option ℕ)
    → t ≢ 0
    → s.lock.owner ≡ owner
    → s.lock.holder ≡ t
    → s.phase t ≡ inside
holder-inside h t none nz e k = ground (arith, h.free)
holder-inside h t (some u) nz e k = ground (arith, h.owner_in u, h.at_inside u, h.at_leaving u)

-- Threads that lock from outside and unlock from inside: at every moment a thread is told that the
-- lock is its own exactly if it is between the two.
pub Reach-holds :
    {s : System} (t : ℕ) → Reach s → t ≢ 0 → is_locked_by s.lock t ≡ true ↔ s.phase t ≡ inside
unfolding is_locked_by
Reach-holds {s} t r nz =
    let h = Reach-IsHeld r in
    (λ e. holder-inside h t s.lock.owner nz refl (ground arith), λ e. ground (arith, h.at_inside t))

-- The steps of one thread, one after the other.
unfoldable pub run : MutexLock → List Move → ℕ → Option MutexLock
unfolding step
run m [] t = some m
run m (move ∷ moves) t = elim (step m move t) [ none ↦ none | some n ↦ run n moves t ]

-- The mutex is recursive, but the holder is not counted: a thread that locks a free lock twice and
-- unlocks it once still owns it, and is told that it does not.
pub nested_unlock :
    (m : MutexLock) (t : ℕ)
    → m.owner ≡ none
    → m.depth ≡ 0
    → t ≢ 0
    → (n : MutexLock) × (run m (locks ∷ locks ∷ clears ∷ releases ∷ []) t ≡ some n)
      × (n.owner ≡ some t)
      × (is_locked_by n t ≡ false)
unfolding run step is_locked_by
nested_unlock m t free zero_deep nz =
    (record { owner = some t; depth = 1; holder = 0 }, ground arith, refl, ground arith)
