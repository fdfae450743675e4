-- ===== src/Timer/Insert.antt =====
-- The multimap of src/timer_manager.cc stays in order, keeps its timers and its position.
use mathlib.Core.List.{Perm}
use mathlib.Core.List.Perm
use tit_co.Base.{
  ℕ, suc, ◌+◌, ◌≤◌, ◌≡◌, refl, Bool, true, false, ltb, leb, ◌==◌, if◌then◌else◌, Option, none, some,
  List, [], ◌∷◌, inl, inr, Bool-cases, arith,
}
use tit_co.Timer.{
  Entry, TimerManager, has, insert_upper, insert_lower, insert_at, insert, add_timer, del_timer,
  erase, after, is_at, first_handle,
}

-- Deadlines do not fall along the list, and start at `d` or later.
abbrev pub Above : ℕ → List Entry → Type 0
Above d [] = Unit {0}
Above d (x ∷ xs) = (d ≤ x.deadline) × Above x.deadline xs

pub Above-mono : (c d : ℕ) (xs : List Entry) → c ≤ d → Above d xs → Above c xs
Above-mono c d [] h a = tt
Above-mono c d (x ∷ xs) h a = (omega arith, a.1)

module _ (e : Entry) where
  pub insert_upper-Above :
      (d : ℕ) (xs : List Entry) → d ≤ e.deadline → Above d xs → Above d (insert_upper e xs)
  unfolding insert_upper
  insert_upper-Above d [] h a = (h, tt)
  insert_upper-Above d (x ∷ xs) h a = ground (arith, insert_upper-Above x.deadline xs)

  pub insert_lower-Above :
      (d : ℕ) (xs : List Entry) → d ≤ e.deadline → Above d xs → Above d (insert_lower e xs)
  unfolding insert_lower
  insert_lower-Above d [] h a = (h, tt)
  insert_lower-Above d (x ∷ xs) h a = ground (arith, insert_lower-Above x.deadline xs)

  has-insert_upper : (xs : List Entry) → has e.handle (insert_upper e xs) ≡ true
  unfolding insert_upper
  has-insert_upper [] = ground arith
  has-insert_upper (x ∷ xs) = ground (arith, has-insert_upper xs)

  has-insert_lower : (xs : List Entry) → has e.handle (insert_lower e xs) ≡ true
  unfolding insert_lower
  has-insert_lower [] = ground arith
  has-insert_lower (x ∷ xs) = ground (arith, has-insert_lower xs)

  insert_upper-perm : (xs : List Entry) → Perm (insert_upper e xs) (e ∷ xs)
  unfolding insert_upper
  insert_upper-perm [] = Perm.refl (e ∷ [])
  insert_upper-perm (x ∷ xs) = elim (Bool-cases (leb x.deadline e.deadline)) [
    | inl q ↦ rw q (Perm.trans (Perm.cons x (insert_upper-perm xs)) (Perm.swap e x xs))
    | inr q ↦ rw q (Perm.refl (e ∷ x ∷ xs))
  ]

  insert_lower-perm : (xs : List Entry) → Perm (insert_lower e xs) (e ∷ xs)
  unfolding insert_lower
  insert_lower-perm [] = Perm.refl (e ∷ [])
  insert_lower-perm (x ∷ xs) = elim (Bool-cases (ltb x.deadline e.deadline)) [
    | inl q ↦ rw q (Perm.trans (Perm.cons x (insert_lower-perm xs)) (Perm.swap e x xs))
    | inr q ↦ rw q (Perm.refl (e ∷ x ∷ xs))
  ]

  -- What an insertion with a good hint promises of its result.
  abbrev pub Inserted : ℕ → List Entry → List Entry → Type 0
  Inserted d xs ys = Above d ys × Perm ys (e ∷ xs) × (has e.handle ys ≡ true)

  insert_at_lem :
      (h d : ℕ) (xs : List Entry)
      → d ≤ e.deadline
      → Above d xs
      → has h xs ≡ true
      → (ys : List Entry) × (insert_at h e xs ≡ some ys) × Inserted d xs ys
  unfolding insert_at
  insert_at_lem h d [] le a q = absurd (cc)
  insert_at_lem h d (x ∷ xs) le a q = elim (Bool-cases (x.handle == h)) [
    | inl hit ↦ elim (Bool-cases (leb e.deadline x.deadline)) [
      | inl p ↦ (e ∷ x ∷ xs, ground arith, (ground arith, Perm.refl (e ∷ x ∷ xs), ground arith))
      | inr p ↦ (
        x ∷ insert_lower e xs,
        ground arith,
        (
          ground (arith, insert_lower-Above x.deadline xs),
          Perm.trans (Perm.cons x (insert_lower-perm xs)) (Perm.swap e x xs),
          ground (arith, has-insert_lower xs),
        ),
      )
    ]
    | inr miss ↦ elim (Bool-cases (leb x.deadline e.deadline)) [
      | inl p ↦
          let (ys, r, more) = insert_at_lem h x.deadline xs (ground arith) a.1 (ground arith) in
          (
            x ∷ ys,
            ground arith,
            (
              (ground arith, more.0),
              Perm.trans (Perm.cons x more.1) (Perm.swap e x xs),
              ground arith,
            ),
          )
      | inr p ↦ (e ∷ x ∷ xs, ground arith, (ground arith, Perm.refl (e ∷ x ∷ xs), ground arith))
    ]
  ]

-- The position is a node of the map, or its end; handles that are still to come are not in use.
abbrev pub at_ok : Option ℕ → List Entry → Bool
at_ok none xs = true
at_ok (some h) xs = has h xs

pub record IsValid (t : TimerManager) : Type 0 where
  pub sorted : Above 0 t.timer
  pub position : at_ok t.it t.timer ≡ true

insert_lem :
    (e : Entry) (it : Option ℕ) (xs : List Entry)
    → Above 0 xs
    → at_ok it xs ≡ true
    → (ys : List Entry) × (insert it e xs ≡ some ys) × Inserted e 0 xs ys
unfolding insert
insert_lem e none xs a q = (
  insert_upper e xs,
  refl,
  (insert_upper-Above e 0 xs (omega arith) a, insert_upper-perm e xs, has-insert_upper e xs),
)
insert_lem e (some h) xs a q = insert_at_lem e h 0 xs (omega arith) a q

-- In a state whose map is in order and whose position does not dangle, `AddTimer` succeeds, adds
-- the coroutine at `now + ms` and nothing else, returns the new timer's iterator and leaves such a
-- state again.
pub add_timer_lem :
    (t : TimerManager) (now ms co : ℕ)
    → IsValid t
    → (t' : TimerManager) × (add_timer t now ms co ≡ some (t', t.fresh))
      × IsValid t'
      × Perm t'.timer (record { handle = t.fresh; deadline = now + ms; co = co } ∷ t.timer)
      × (has t.fresh t'.timer ≡ true)
unfolding add_timer
add_timer_lem t now ms co v =
    let e : Entry = record { handle = t.fresh; deadline = now + ms; co = co } in
    let (ys, r, more) = insert_lem e t.it t.timer v.sorted v.position in
    (
      record { timer = ys; it = some t.fresh; fresh = suc t.fresh },
      rw r,
      record { sorted = more.0; position = more.2 },
      more.1,
      more.2,
    )

erase-Above : (h d : ℕ) (xs : List Entry) → Above d xs → Above d (erase h xs)
erase-Above h d [] a = tt
erase-Above h d (x ∷ xs) a = ground (arith, erase-Above h x.deadline xs, Above-mono d x.deadline xs)

at_ok-erase :
    (h : ℕ) (it : Option ℕ) (xs : List Entry)
    → at_ok it xs ≡ true
    → is_at it h ≡ false
    → at_ok it (erase h xs) ≡ true
at_ok-erase h none xs q n = refl
at_ok-erase h (some i) [] q n = q
at_ok-erase h (some i) (x ∷ xs) q n = ground (arith, at_ok-erase h (some i) xs)

at_ok-first : (xs : List Entry) → at_ok (first_handle xs) xs ≡ true
at_ok-first [] = refl
at_ok-first (x ∷ xs) = ground arith

at_ok-cons :
    (it : Option ℕ) (x : Entry) (xs : List Entry) → at_ok it xs ≡ true → at_ok it (x ∷ xs) ≡ true
at_ok-cons none x xs q = refl
at_ok-cons (some i) x xs q = ground arith

at_ok-after : (h : ℕ) (xs : List Entry) → at_ok (after h xs) (erase h xs) ≡ true
at_ok-after h [] = refl
at_ok-after h (x ∷ xs) =
    ground (arith, at_ok-first xs, at_ok-after h xs, at_ok-cons (after h xs) x (erase h xs))

-- `DelTimer` of a timer that is there succeeds, and leaves the map in order and the position at a
-- node or at the end, also where it was the timer that goes.
pub del_timer-IsValid :
    (t : TimerManager) (h : ℕ)
    → IsValid t
    → has h t.timer ≡ true
    → (t' : TimerManager) × (del_timer t h ≡ some t') × IsValid t'
unfolding del_timer
del_timer-IsValid t h v q = (
  record t { it = if is_at t.it h then after h t.timer else t.it; timer = erase h t.timer },
  rw q,
  record {
    sorted = erase-Above h 0 t.timer v.sorted;
    position = elim (Bool-cases (is_at t.it h)) [
      | inl e ↦ rw e (at_ok-after h t.timer)
      | inr e ↦ rw e (at_ok-erase h t.it t.timer v.position e)
    ];
  },
)
