-- ===== src/Mutex/Exclusion.antt =====
-- Mutual exclusion of src/mutex.cc, and the order in which the waiting coroutines are served.
use tit_co.Base.{
  ℕ, suc, ◌<◌, ◌≡◌, ◌≢◌, refl, true, false, ◌==◌, if◌then◌else◌, List, [], ◌∷◌, ◌++◌, ◌⊎◌, inl, inr,
  count, count-append, Bool-cases, arith,
}
use tit_co.Mutex.{
  locked, unlocked, tried, Place, outside, waiting, inside, System, Step, locks, tries, unlocks,
  late, Reach, here, next, start, update,
}

abbrev pub waits : Place → ℕ
waits waiting = 1
waits _ = 0

-- One coroutine is inside exactly when the flag is up; those in the queue are those that wait.
pub record IsSafe (s : System) : Type 0 where
  pub unique : (i j : ℕ) → s.place i ≡ inside → s.place j ≡ inside → i ≡ j
  pub free : s.mutex.lock ≡ false → s.mutex.wait_queue ≡ []
  pub nobody : s.mutex.lock ≡ false → (i : ℕ) → s.place i ≢ inside
  pub somebody : s.mutex.lock ≡ true → (i : ℕ) × (s.place i ≡ inside)
  pub queued : (i : ℕ) → count i s.mutex.wait_queue ≡ waits (s.place i)

module _ (s : System) (v : IsSafe s) (i : ℕ) where
  locked-IsSafe : s.place i ≡ outside → IsSafe (locked s i)
  unfolding locked
  locked-IsSafe h = elim (Bool-cases s.mutex.lock) [
    | inl up ↦ record {
      unique = λ a b p q. ground (arith, v.unique a b);
      free = λ e. ground arith;
      nobody = λ e a. ground arith;
      somebody = λ e. let (a, p) = v.somebody up in (a, ground arith);
      queued = λ a. ground (arith, v.queued a, count-append s.mutex.wait_queue (i ∷ []) a);
    }
    | inr down ↦ record {
      unique = λ a b p q. ground (arith, v.nobody down a, v.nobody down b);
      free = λ e. ground arith;
      nobody = λ e a. ground arith;
      somebody = λ e. (i, ground arith);
      queued = λ a. ground (arith, v.queued a);
    }
  ]

  tried-IsSafe : s.place i ≡ outside → IsSafe (tried s i)
  unfolding tried
  tried-IsSafe h = elim (Bool-cases s.mutex.lock) [
    | inl up ↦ record {
      unique = λ a b p q. ground (arith, v.unique a b);
      free = λ e. ground arith;
      nobody = λ e a. ground arith;
      somebody = λ e. let (a, p) = v.somebody up in (a, ground arith);
      queued = λ a. ground (arith, v.queued a);
    }
    | inr down ↦ record {
      unique = λ a b p q. ground (arith, v.nobody down a, v.nobody down b);
      free = λ e. ground (arith, v.free down);
      nobody = λ e a. ground arith;
      somebody = λ e. (i, ground arith);
      queued = λ a. ground (arith, v.queued a);
    }
  ]

  unlocked_empty-IsSafe : s.place i ≡ inside → s.mutex.wait_queue ≡ [] → IsSafe (unlocked s i)
  unfolding unlocked
  unlocked_empty-IsSafe h q = record {
    unique = λ a b p r. ground (arith, v.unique a b, v.unique i a, v.unique i b);
    free = λ e. ground arith;
    nobody = λ e a. ground (arith, v.unique i a);
    somebody = λ e. ground arith;
    queued = λ a. ground (arith, v.queued a);
  }

  unlocked_waiting-IsSafe :
      (co : ℕ) (rest : List ℕ)
      → s.place i ≡ inside
      → s.mutex.wait_queue ≡ co ∷ rest
      → IsSafe (unlocked s i)
  unfolding unlocked
  unlocked_waiting-IsSafe co rest h q = record {
    unique = λ a b p r. ground (arith, v.unique i a, v.unique i b);
    free = λ e. ground (arith, v.free, v.nobody);
    nobody = λ e a. absurd (v.nobody (ground arith) i h);
    somebody = λ e. (co, ground (arith, v.queued co));
    queued = λ a. ground (arith, v.queued a, v.queued co);
  }

  unlocked-IsSafe : s.place i ≡ inside → IsSafe (unlocked s i)
  unlocked-IsSafe h = by_queue s.mutex.wait_queue refl
    where
      by_queue : (q : List ℕ) → s.mutex.wait_queue ≡ q → IsSafe (unlocked s i)
      by_queue [] e = unlocked_empty-IsSafe h e
      by_queue (co ∷ rest) e = unlocked_waiting-IsSafe co rest h e

step-IsSafe : {s t : System} → Step false s t → IsSafe s → IsSafe t
step-IsSafe {s} (locks i h e) v = rw e (locked-IsSafe s v i h)
step-IsSafe {s} (tries i h e) v = rw e (tried-IsSafe s v i h)
step-IsSafe {s} (unlocks i h e) v = rw e (unlocked-IsSafe s v i h)
step-IsSafe {s} (late i stale h e) v = absurd (cc)

Reach-IsSafe : {s : System} → Reach false start s → IsSafe s
Reach-IsSafe here = record {
  unique = λ i j p q. absurd (cc);
  free = λ e. refl;
  nobody = λ e i p. cc;
  somebody = λ e. absurd (cc);
  queued = λ i. refl;
}
Reach-IsSafe (next r st) = step-IsSafe st (Reach-IsSafe r)

-- However coroutines lock, try and unlock, as long as no timer of an earlier wait resumes one that
-- waits here, never are two of them inside, and while one is, the flag
-- is up.
pub exclusion :
    {s : System}
    → Reach false start s
    → (i j : ℕ) → s.place i ≡ inside
    → s.place j ≡ inside
    → (i ≡ j) × (s.mutex.lock ≡ true)
exclusion {s} r i j p q =
    let v = Reach-IsSafe r in
    (
      v.unique i j p q,
      elim (Bool-cases s.mutex.lock) [ inl up ↦ up | inr down ↦ absurd (v.nobody down i p) ],
    )

-- No coroutine is forgotten, as long as no timer of an earlier wait resumes one that waits here: one
-- that waits is in the queue, exactly once, while another is inside,
-- whose `UnLock` will serve the queue.
pub not_forgotten :
    {s : System}
    → Reach false start s
    → (i : ℕ) → s.place i ≡ waiting
    → (count i s.mutex.wait_queue ≡ 1) × ((j : ℕ) × (s.place j ≡ inside))
not_forgotten {s} r i w =
    let v = Reach-IsSafe r in
    (
      ground (arith, v.queued i),
      elim (Bool-cases s.mutex.lock) [
        | inl up ↦ v.somebody up
        | inr down ↦ absurd (ground (arith, v.free down, v.queued i))
      ],
    )

-- How many of the queue are served before `i`.
abbrev pub ahead : ℕ → List ℕ → ℕ
ahead i [] = 0
ahead i (x ∷ xs) = if x == i then 0 else suc (ahead i xs)

ahead-append : (i j : ℕ) (xs : List ℕ) → 0 < count i xs → ahead i (xs ++ j ∷ []) ≡ ahead i xs
ahead-append i j [] h = absurd (omega arith)
ahead-append i j (x ∷ xs) h = ground (arith, ahead-append i j xs)

-- Coroutine `i` keeps waiting behind as many others, or behind one fewer; or it is let in from the
-- head of the queue.
abbrev pub Stays : ℕ → System → System → Type 0
Stays i s t = (t.place i ≡ waiting) × (ahead i t.mutex.wait_queue ≡ ahead i s.mutex.wait_queue)

abbrev pub Advances : ℕ → System → System → Type 0
Advances i s t =
    (t.place i ≡ waiting) × (suc (ahead i t.mutex.wait_queue) ≡ ahead i s.mutex.wait_queue)

abbrev pub Enters : ℕ → System → System → Type 0
Enters i s t = (t.place i ≡ inside) × (ahead i s.mutex.wait_queue ≡ 0)

unlocked-serves :
    (s : System) (v : IsSafe s) (i j : ℕ) (queue : List ℕ)
    → s.mutex.wait_queue ≡ queue
    → s.place j ≡ inside
    → s.place i ≡ waiting
    → Advances i s (unlocked s j) ⊎ Enters i s (unlocked s j)
unfolding unlocked
unlocked-serves s v i j [] e h w = absurd (ground (arith, v.queued i))
unlocked-serves s v i j (co ∷ rest) e h w = elim (Bool-cases (co == i)) [
  | inl me ↦ inr (ground arith, ground arith)
  | inr other ↦ inl (ground arith, ground arith)
]

-- What a step may do to a coroutine `i` that waits.
abbrev pub InTurn : {s t : System} → ℕ → Step false s t → Type 0
InTurn {s} {t} i (locks j h e) = Stays i s t
InTurn {s} {t} i (tries j h e) = Stays i s t
InTurn {s} {t} i (unlocks j h e) = Advances i s t ⊎ Enters i s t
InTurn i (late j stale h e) = ⊥

lock-Stays :
    (s : System) (v : IsSafe s) (i j : ℕ)
    → s.place i ≡ waiting
    → s.place j ≡ outside
    → Stays i s (locked s j) × Stays i s (tried s j)
unfolding locked tried
lock-Stays s v i j w h = (
  (ground arith, ground (arith, v.queued i, v.free, ahead-append i j s.mutex.wait_queue)),
  (ground arith, ground arith),
)

-- First come, first served, as long as no timer of an earlier wait resumes a coroutine that waits
-- here: while one waits, a `Lock` or `TryLock` of another leaves as many before it in the queue as
-- there were, and every `UnLock` either leaves one fewer before it, or lets it in, which it does only
-- if none is before it.
pub fifo :
    {s t : System}
    → Reach false start s
    → (st : Step false s t) (i : ℕ) → s.place i ≡ waiting
    → InTurn i st
fifo {s} r (locks j h e) i w = rw e (lock-Stays s (Reach-IsSafe r) i j w h).0
fifo {s} r (tries j h e) i w = rw e (lock-Stays s (Reach-IsSafe r) i j w h).1
fifo {s} r (unlocks j h e) i w =
    rw e (unlocked-serves s (Reach-IsSafe r) i j s.mutex.wait_queue refl h w)
fifo {s} r (late j stale h e) i w = absurd (cc)

abbrev both_inside : System
unfolding locked
both_inside = let s = locked (locked start 1) 2 in record s { place = update s.place 2 inside }

-- Where a timer of an earlier wait may resume a coroutine that waits in `Lock`, two can be inside,
-- and the second is still in the queue.
pub stale_intrusion :
    (s : System) × Reach true start s
    × (s.place 1 ≡ inside)
    × (s.place 2 ≡ inside)
    × (s.mutex.wait_queue ≡ 2 ∷ [])
unfolding locked
stale_intrusion = (
  both_inside,
  next (next (next here (locks 1 refl refl)) (locks 2 refl refl)) (late 2 refl refl refl),
  refl,
  refl,
  refl,
)
