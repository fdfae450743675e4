-- ===== src/Timer/Hints.antt =====
-- Insertions into the multimap of src/timer_manager.cc at any hint, also one that dangles.
use mathlib.Core.Option
use tit_co.Base.{
  ℕ, suc, ◌+◌, ◌≤◌, leb, ◌==◌, ◌≡◌, subst, Option, none, some, List, [], ◌∷◌, inl, inr, Bool-cases,
  arith,
}
use tit_co.Timer.{Entry, TimerManager, insert_at, insert, add_timer}
use tit_co.Timer.Insert.{Above, insert_upper-Above, insert_lower-Above}

-- Where an insertion has a result, it is one of these.
abbrev pub WhenSome : {A : Type 0} → (A → Type 0) → Option A → Type 0
WhenSome P none = Unit
WhenSome P (some a) = P a

pub map-WhenSome :
    {A B : Type 0}
    → (P : A → Type 0) (Q : B → Type 0) (f : A → B) → ((a : A) → P a → Q (f a))
    → (o : Option A) → WhenSome P o
    → WhenSome Q (Option.map f o)
map-WhenSome P Q f h none w = tt
map-WhenSome P Q f h (some a) w = h a w

-- An insertion at any hint, also one that dangles, keeps the order and a bound from below.
module _ (e : Entry) where
  insert_at-Above :
      (h d : ℕ) (xs : List Entry)
      → d ≤ e.deadline
      → Above d xs
      → WhenSome (Above d) (insert_at h e xs)
  unfolding insert_at
  insert_at-Above h d [] le a = tt
  insert_at-Above h d (x ∷ xs) le a = elim (Bool-cases (x.handle == h)) [
    | inl hit ↦ rw hit (elim (Bool-cases (leb e.deadline x.deadline)) [
      | inl p ↦ rw p (ground arith)
      | inr p ↦ rw p (ground (arith, insert_lower-Above e x.deadline xs))
    ])
    | inr miss ↦ rw miss (elim (Bool-cases (leb x.deadline e.deadline)) [
      | inl p ↦ rw p (
          map-WhenSome (Above x.deadline) (Above d) (λ ys. x ∷ ys) (λ ys b. (a.0, b))
            (insert_at h e xs) (insert_at-Above h x.deadline xs (ground arith) a.1))
      | inr p ↦ rw p (ground arith)
    ])
  ]

  insert-Above :
      (it : Option ℕ) (d : ℕ) (xs : List Entry)
      → d ≤ e.deadline
      → Above d xs
      → WhenSome (Above d) (insert it e xs)
  unfolding insert
  insert-Above none d xs le a = insert_upper-Above e d xs le a
  insert-Above (some h) d xs le a = insert_at-Above h d xs le a

pub add_timer-Above :
    (d : ℕ) (t t' : TimerManager) (now ms co h : ℕ)
    → d ≤ now + ms
    → Above d t.timer
    → add_timer t now ms co ≡ some (t', h)
    → Above d t'.timer
unfolding add_timer
add_timer-Above d t t' now ms co h le a e =
    let added : Entry = record { handle = t.fresh; deadline = now + ms; co = co } in
    subst (WhenSome (λ (p : TimerManager × ℕ). Above d p.0.timer)) e (
      map-WhenSome (Above d) (λ (p : TimerManager × ℕ). Above d p.0.timer)
        (λ xs. (record { timer = xs; it = some t.fresh; fresh = suc t.fresh }, t.fresh)) (λ xs b. b)
        (insert t.it added t.timer) (insert-Above added t.it d t.timer le a))
