-- ===== src/Timer/Collect.antt =====
-- What `CollectTimeoutTasks` of src/timer_manager.cc takes out, whom it resumes, how long it lets
-- the loop wait, and the position that it leaves.
use tit_co.Base.{
  ℕ, suc, ◌+◌, ◌^◌, ◌≤◌, ◌<◌, ◌≡◌, refl, false, Option, none, some, List, [], ◌∷◌, ◌++◌, length,
  All, arith,
}
use tit_co.CoState.{Store, k_init, expire}
use tit_co.Timer.{
  Entry, TimerManager, has, insert, insert_at, add_timer, Swept, sweep, wait_ms, kept_it, collect,
}
use tit_co.Timer.Insert.{Above, Above-mono, IsValid}

-- A clock does not run backwards.
abbrev pub IsClock : (ℕ → ℕ) → Type 0
IsClock now = (i j : ℕ) → i ≤ j → now i ≤ now j

abbrev pub DueBy : ℕ → Entry → Type 0
DueBy time x = x.deadline ≤ time

sweep-parts :
    (now : ℕ → ℕ) (i : ℕ) (s : Store) (xs : List Entry)
    → let w = sweep now i s xs in w.expired ++ w.rest ≡ xs
unfolding sweep
sweep-parts now i s [] = refl
sweep-parts now i s (x ∷ xs) = ground (arith, sweep-parts now (suc i) (expire s x.co).0 xs)

sweep-reads :
    (now : ℕ → ℕ) (i : ℕ) (s : Store) (xs : List Entry) → (sweep now i s xs).reads ≤ i + length xs
unfolding sweep
sweep-reads now i s [] = omega arith
sweep-reads now i s (x ∷ xs) = ground (arith, sweep-reads now (suc i) (expire s x.co).0 xs)

sweep-DueBy :
    (now : ℕ → ℕ) (last : ℕ)
    → IsClock now
    → (i : ℕ) (s : Store) (xs : List Entry) → i + length xs ≤ last
    → All (DueBy (now last)) (sweep now i s xs).expired
unfolding sweep
sweep-DueBy now last c i s [] h = tt
sweep-DueBy now last c i s (x ∷ xs) h =
    ground (arith, c i last, sweep-DueBy now last c (suc i) (expire s x.co).0 xs)

sweep-Above :
    (now : ℕ → ℕ)
    → IsClock now
    → (i d : ℕ) (s : Store) (xs : List Entry) → Above d xs
    → Above (suc (now i)) (sweep now i s xs).rest
unfolding sweep
sweep-Above now c i d s [] a = tt
sweep-Above now c i d s (x ∷ xs) a = ground (
  arith,
  c i (suc i),
  sweep-Above now c (suc i) x.deadline (expire s x.co).0 xs,
  Above-mono (suc (now i)) (suc (now (suc i))) (sweep now (suc i) (expire s x.co).0 xs).rest,
)

-- The timers in order are cut in two: what is taken out is due by the time the collection ends,
-- and what stays was not due when it began, in order as before.
pub collect_splits :
    (t : TimerManager) (now : ℕ → ℕ) (s : Store)
    → IsClock now
    → IsValid t
    → (expired : List Entry) × (expired ++ (collect t now s).timers.timer ≡ t.timer)
      × All (DueBy (now (length t.timer))) expired
      × Above (suc (now 0)) (collect t now s).timers.timer
unfolding collect
collect_splits t now s c v = (
  (sweep now 0 s t.timer).expired,
  sweep-parts now 0 s t.timer,
  sweep-DueBy now (length t.timer) c 0 s t.timer (omega arith),
  sweep-Above now c 0 0 s t.timer v.sorted,
)

-- The coroutines of the timers that have a wait context.
abbrev pub waiters : Store → List Entry → List ℕ
waiters s [] = []
waiters s (x ∷ xs) = elim (s.wait_ctx x.co) [ none ↦ waiters s xs | some _ ↦ x.co ∷ waiters s xs ]

abbrev pub AllInit : Store → Type 0
AllInit s = (co : ℕ) → s.co_state co ≡ k_init

expire-AllInit : (s : Store) (co : ℕ) → AllInit s → AllInit (expire s co).0
unfolding expire
expire-AllInit s co a j = ground (arith, a co, a j)

expire-wait_ctx : (s : Store) (co : ℕ) → (expire s co).0.wait_ctx ≡ s.wait_ctx
unfolding expire
expire-wait_ctx s co = ground arith

expire-tasks :
    (s : Store) (x : Entry) (xs : List Entry)
    → AllInit s
    → (expire s x.co).1 ++ waiters s xs ≡ waiters s (x ∷ xs)
unfolding expire
expire-tasks s x xs a = ground (arith, a x.co)

waiters-same :
    (s r : Store) (xs : List Entry) → r.wait_ctx ≡ s.wait_ctx → waiters r xs ≡ waiters s xs
waiters-same s r [] e = refl
waiters-same s r (x ∷ xs) e = rw e (ground (arith, waiters-same s r xs e))

sweep-tasks :
    (now : ℕ → ℕ) (i : ℕ) (s : Store) (xs : List Entry)
    → AllInit s
    → (sweep now i s xs).tasks ≡ waiters s (sweep now i s xs).expired
unfolding sweep
sweep-tasks now i s [] a = refl
sweep-tasks now i s (x ∷ xs) a =
    let r = (expire s x.co).0 in
    ground (
      arith,
      sweep-tasks now (suc i) r xs (expire-AllInit s x.co a),
      waiters-same s r (sweep now (suc i) r xs).expired (expire-wait_ctx s x.co),
      expire-tasks s x (sweep now (suc i) r xs).expired a,
    )

-- Whom a collection resumes, while the states of all coroutines are the initial one (the program
-- never writes another): the coroutines of the timers taken out that have a wait context, in
-- order, whatever that context's state. So one whose wait is over already is resumed again, and
-- one that sleeps without a wait context is taken out and never resumed.
pub collect_resumes :
    (t : TimerManager) (now : ℕ → ℕ) (s : Store)
    → AllInit s
    → (expired : List Entry) × (expired ++ (collect t now s).timers.timer ≡ t.timer)
      × ((collect t now s).tasks ≡ waiters s expired)
unfolding collect
collect_resumes t now s a =
    ((sweep now 0 s t.timer).expired, sweep-parts now 0 s t.timer, sweep-tasks now 0 s t.timer a)

insert_at-dangling :
    (h : ℕ) (e : Entry) (xs : List Entry) → has h xs ≡ false → insert_at h e xs ≡ none
unfolding insert_at
insert_at-dangling h e [] q = refl
insert_at-dangling h e (x ∷ xs) q = ground (arith, insert_at-dangling h e xs)

kept_it-same :
    (n : ℕ) (w : Swept) (rest : List Entry) (it : Option ℕ)
    → w.rest ≡ rest
    → Above (suc n) rest
    → (kept_it (λ _. n) w it).0 ≡ it
kept_it-same n w [] it e a = ground arith
kept_it-same n w (x ∷ xs) it e a = ground arith

-- A collection at one moment that takes out the timer at which the position stands leaves the
-- position at it, and the next `AddTimer` goes through a dangling iterator.
pub collect_dangles :
    (t : TimerManager) (n : ℕ) (s : Store) (h : ℕ)
    → IsValid t
    → t.it ≡ some h
    → has h (collect t (λ _. n) s).timers.timer ≡ false
    → (now ms co : ℕ) → add_timer (collect t (λ _. n) s).timers now ms co ≡ none
unfolding collect add_timer insert
collect_dangles t n s h v at gone now ms co =
    let w = sweep (λ _. n) 0 s t.timer in
    rw (
      kept_it-same n w w.rest t.it refl
          (sweep-Above (λ _. n) (λ i j le. omega arith) 0 0 s t.timer v.sorted),
      at,
      insert_at-dangling h (record { handle = t.fresh; deadline = now + ms; co = co }) w.rest gone,
    )

pub collect-Above :
    (t : TimerManager) (n : ℕ) (s : Store)
    → Above 0 t.timer
    → Above (suc n) (collect t (λ _. n) s).timers.timer
unfolding collect
collect-Above t n s a = sweep-Above (λ _. n) (λ i j le. omega arith) 0 0 s t.timer a

pub waits_sorted :
    (t : TimerManager) (n : ℕ) (s : Store) (x : Entry) (xs : List Entry)
    → Above 0 t.timer
    → (collect t (λ _. n) s).timers.timer ≡ x ∷ xs
    → x.deadline < n + 2 ^ 31
    → let c = collect t (λ _. n) s in
      (n < x.deadline) × (c.result + n ≡ x.deadline) × (c.result < 2 ^ 31)
unfolding collect wait_ms
waits_sorted t n s x xs sorted e le =
    let a = sweep-Above (λ _. n) (λ i j le. omega arith) 0 0 s t.timer sorted in ground arith

-- At one moment, if a timer stays and its deadline is less than 2 ^ 31 away, the result is the time
-- until the first such deadline.
pub collect_waits :
    (t : TimerManager) (n : ℕ) (s : Store) (x : Entry) (xs : List Entry)
    → IsValid t
    → (collect t (λ _. n) s).timers.timer ≡ x ∷ xs
    → x.deadline < n + 2 ^ 31
    → let c = collect t (λ _. n) s in
      (n < x.deadline) × (c.result + n ≡ x.deadline) × (c.result < 2 ^ 31)
collect_waits t n s x xs v e le = waits_sorted t n s x xs v.sorted e le

-- If the first timer is not due when the collection looks at it, and is overdue when the result is
-- computed from a second look at the clock, nothing is taken out and the result, which
-- `epoll_wait` takes as an `int`, is negative: the loop waits without a limit for a timer that is
-- due.
pub collect_late :
    (t : TimerManager) (now : ℕ → ℕ) (s : Store) (x : Entry) (xs : List Entry)
    → t.timer ≡ x ∷ xs
    → now 0 < x.deadline
    → x.deadline < now 1
    → now 1 < x.deadline + 2 ^ 31
    → ((collect t now s).timers.timer ≡ t.timer) × (2 ^ 31 ≤ (collect t now s).result)
unfolding collect sweep wait_ms
collect_late t now s x xs e p q r = ground arith
