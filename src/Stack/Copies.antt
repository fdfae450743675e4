-- ===== src/Stack/Copies.antt =====
-- What `SaveStack` of src/scheduler.cc, a yield and `Recycle` keep of the bytes of the others.
use tit_co.Base.{
  ℕ, ◌-◌, ◌≤◌, ◌<◌, ◌≡◌, refl, ◌==◌, true, false, if◌then◌else◌, Option, none, some, Bool-cases,
  Option-cases, inl, inr, arith,
}
use tit_co.Stack.{
  owner_of, moved, k_small_buffer, append, Share, saved, save_stack, is, yielded, recycled,
}

abbrev pub Held : Share → ℕ → ℕ → Type 0
Held s co c =
    (c ≤ s.top)
    × (s.top - c < k_small_buffer)
    × ((j : ℕ)
        → c ≤ j
        → j < s.top
        → (if is s.owner co then s.mem j else (s.fibers co).stack.data_ (j - c)) ≡ s.frame co j)

pub record IsKept (s : Share) : Type 0 where
  pub held : (co c : ℕ) → is s.running co ≡ false → (s.fibers co).ctx ≡ some c → Held s co c
  pub owns : (co : ℕ) → is s.running co ≡ true → is s.owner co ≡ true
  pub fresh : s.made ≡ false → s.owner ≡ none
  pub begun : (co : ℕ) → is s.running co ≡ true → s.made ≡ true
  pub unused : s.made ≡ false → (co : ℕ) → (s.fibers co).ctx ≡ none

pub is_one : (o : Option ℕ) (a b : ℕ) → is o a ≡ true → (a == b) ≡ false → is o b ≡ false
is_one none a b h e = refl
is_one (some o) a b h e = ground arith

pub yielded-Held :
    (s : Share) (co : ℕ) (mem : ℕ → ℕ) (ctx : ℕ)
    → s.running ≡ some co
    → ctx ≤ s.top
    → s.top - ctx < k_small_buffer
    → IsKept s
    → (i c : ℕ) → ((yielded s co mem ctx).fibers i).ctx ≡ some c
    → Held (yielded s co mem ctx) i c
unfolding yielded
yielded-Held s co mem ctx r le small v i c e = elim (Bool-cases (co == i)) [
  | inl me ↦ (ground arith, ground arith, λ j a b. ground (arith, v.owns co))
  | inr other ↦
      let gone = is_one s.owner co i (v.owns co (ground arith)) other in
      let (a, b, h) = v.held i c (ground arith) (ground arith) in
      (a, b, λ j p q. ground (arith, h j p q))
]

pub yielded-IsKept :
    (s : Share) (co : ℕ) (mem : ℕ → ℕ) (ctx : ℕ)
    → s.running ≡ some co
    → ctx ≤ s.top
    → s.top - ctx < k_small_buffer
    → IsKept s
    → IsKept (yielded s co mem ctx)
unfolding yielded
yielded-IsKept s co mem ctx r le small v = record {
  held = λ i c n e. yielded-Held s co mem ctx r le small v i c e;
  owns = λ i e. absurd (cc);
  fresh = v.fresh;
  begun = λ i e. absurd (cc);
  unused = λ e. absurd (ground (arith, v.begun co));
}

pub recycled-IsKept :
    (s : Share) (co : ℕ) (mem : ℕ → ℕ) → s.running ≡ some co → IsKept s → IsKept (recycled s co mem)
unfolding recycled
recycled-IsKept s co mem r v = record {
  held = λ i c n e. elim (Bool-cases (co == i)) [
    | inl me ↦ absurd (ground arith)
    | inr other ↦
        let gone = is_one s.owner co i (v.owns co (ground arith)) other in
        let (a, b, h) = v.held i c (ground arith) (ground arith) in
        (a, b, λ j p q. ground (arith, h j p q))
  ];
  owns = λ i e. absurd (cc);
  fresh = λ e. refl;
  begun = λ i e. absurd (cc);
  unused = λ e. absurd (ground (arith, v.begun co));
}

-- Saving the owner's part of the stack moves it into its buffer.
pub saved-Held :
    (s : Share) (o c : ℕ)
    → IsKept s
    → s.running ≡ none
    → s.owner ≡ some o
    → (s.fibers o).ctx ≡ some c
    → ((j : ℕ) → c ≤ j → j < s.top → (saved s o).stack.data_ (j - c) ≡ s.frame o j)
unfolding append
saved-Held s o c v r w e j p q =
    let (a, b, h) = v.held o c (ground arith) e in ground (arith, h j p q)

-- The bytes are in the coroutine's buffer.
abbrev pub Parked : Share → Share → ℕ → ℕ → Type 0
Parked s t i c =
    (c ≤ s.top)
    × (s.top - c < k_small_buffer)
    × ((j : ℕ) → c ≤ j → j < s.top → (t.fibers i).stack.data_ (j - c) ≡ s.frame i j)

pub save_stack-Parked :
    (s : Share) (w : Option ℕ)
    → IsKept s
    → s.running ≡ none
    → s.owner ≡ w
    → (i c : ℕ) → (s.fibers i).ctx ≡ some c
    → Parked s (save_stack s w) i c
unfolding save_stack
save_stack-Parked s none v r w i c e =
    let (a, b, h) = v.held i c (ground arith) e in (a, b, λ j p q. ground (arith, h j p q))
save_stack-Parked s (some o) v r w i c e = elim (Bool-cases (o == i)) [
  | inl me ↦
      let (a, b, h) = v.held i c (ground arith) e in
      (a, b, λ j p q. ground (arith, saved-Held s o c v r w (ground arith) j p q))
  | inr other ↦
      let (a, b, h) = v.held i c (ground arith) e in (a, b, λ j p q. ground (arith, h j p q))
]

pub save_stack-ctx :
    (s : Share) (w : Option ℕ) (i : ℕ) → ((save_stack s w).fibers i).ctx ≡ (s.fibers i).ctx
unfolding save_stack
save_stack-ctx s none i = refl
save_stack-ctx s (some o) i = elim (Option-cases (s.fibers o).ctx) [
  | inl n ↦ ground arith
  | inr (c, e) ↦ ground arith
]

pub moved-Parked :
    (s : Share) (co : ℕ)
    → IsKept s
    → s.running ≡ none
    → (i c : ℕ) → (co == i) ≡ false
    → (s.fibers i).ctx ≡ some c
    → Parked s (moved s co) i c
unfolding moved
moved-Parked s co v r i c ne e = elim (Bool-cases s.made) [
  | inl m ↦ elim (Bool-cases (is s.owner co)) [
    | inl own ↦
        let gone = is_one s.owner co i own ne in
        let (a, b, h) = v.held i c (ground arith) e in (a, b, λ j p q. ground (arith, h j p q))
    | inr not_own ↦
        let (a, b, h) = save_stack-Parked s s.owner v r refl i c e in
        (a, b, λ j p q. ground (arith, h j p q))
  ]
  | inr n ↦
      let (a, b, h) = v.held i c (ground arith) e in
      let nobody = v.fresh n in (a, b, λ j p q. ground (arith, h j p q))
]

pub save_stack_same :
    (s : Share) (w : Option ℕ) → ((save_stack s w).top ≡ s.top) × ((save_stack s w).frame ≡ s.frame)
unfolding save_stack
save_stack_same s none = (refl, refl)
save_stack_same s (some o) = (refl, refl)

pub moved_same :
    (s : Share) (co : ℕ)
    → ((moved s co).top ≡ s.top)
      × ((moved s co).frame ≡ s.frame)
      × ((i : ℕ) → ((moved s co).fibers i).ctx ≡ (s.fibers i).ctx)
unfolding moved
moved_same s co =
    let (a, b) = save_stack_same s (owner_of s co) in
    (ground (arith, a), ground (arith, b), λ i. ground (arith, save_stack-ctx s (owner_of s co) i))
