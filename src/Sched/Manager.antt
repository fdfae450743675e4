-- ===== src/Sched/Manager.antt =====
-- `SchedulerManager` of src/scheduler.cc: the round robin by which `go` chooses a scheduler.
use native.Mathlib.Nat.{mod-eq_of_lt, suc-mod, mod-lt, mod_self}
use tit_co.Base.{
  ℕ, zero, suc, ◌+◌, ◌-◌, ◌%◌, ◌<◌, ◌≤◌, ltb, if◌then◌else◌, ◌≡◌, ◌≢◌, refl, List, [], ◌∷◌, count,
  arith, ap, sym, subst, ◌∙◌, ℕ_discrete, dec_lt,
}
use tit_co.Base.Word.{u32}

-- `index_`; the schedulers are numbered, and there are `sched_num` of them.
pub record SchedulerManager : Type 0 where
  pub index : ℕ
  pub sched_num : ℕ

abbrev pub create : ℕ → SchedulerManager
create n = record { index = 0; sched_num = n }

-- `NextScheduler` in its two steps, the increment and the read: any number of threads run it.
unfoldable pub advance : SchedulerManager → SchedulerManager
advance m = record m { index = suc m.index % u32 }

unfoldable pub current : SchedulerManager → ℕ
current m = m.index % m.sched_num

-- The schedulers that so many calls choose, one after the other.
unfoldable pub choices : ℕ → SchedulerManager → List ℕ
unfolding advance current
choices zero m = []
choices (suc n) m = let next = advance m in current next ∷ choices n next

-- How many calls after an index with the remainder `r` it is the turn of `i`.
abbrev turn : ℕ → ℕ → ℕ → ℕ
turn n r i = if ltb r i then i - r - 1 else i + n - r - 1

next_mod : (n x : ℕ) → 0 < n → suc x % n ≡ (if ltb (suc (x % n)) n then suc (x % n) else 0)
next_mod n x h = elim (dec_lt (suc (x % n)) n) [
  | yes p ↦ rw (suc-mod x n, mod-eq_of_lt p) (ground arith)
  | no p ↦
      let full : suc (x % n) ≡ n = omega (arith, mod-lt x h) in
      rw (suc-mod x n) (rw full (rw (mod_self n) (ground arith)))
]

-- The choices while the index does not wrap around.
picks : ℕ → ℕ → ℕ → List ℕ
picks n zero x = []
picks n (suc k) x = suc x % n ∷ picks n k (suc x)

choices-picks :
    (k : ℕ) (m : SchedulerManager) → m.index + k < u32 → choices k m ≡ picks m.sched_num k m.index
unfolding choices advance current picks
choices-picks zero m h = refl
choices-picks (suc k) m h =
    let e : suc m.index % u32 ≡ suc m.index = omega arith in
    rw e (
      ap (λ l. suc m.index % m.sched_num ∷ l)
        (choices-picks k (record m { index = suc m.index }) (omega arith)))

abbrev Close : ℕ → ℕ → Type 0
Close a b = (b ≤ a) × (a ≤ suc b)

module _ (n r a : ℕ) (low : r < n) (next : a ≡ (if ltb (suc r) n then suc r else 0)) where
  turn_last : (i : ℕ) → i < n → turn n a i ≤ turn n a a
  turn_last i h = ground arith

  turn_next : (i : ℕ) → i < n → i ≢ a → turn n r i ≡ suc (turn n a i)
  turn_next i h ne = ground arith

  turn_first : turn n r a ≡ 0
  turn_first = ground arith

count_head : (a i : ℕ) (xs : List ℕ) → a ≡ i → count i (a ∷ xs) ≡ suc (count i xs)
count_head a i xs e = ground arith

count_other : (a i : ℕ) (xs : List ℕ) → i ≢ a → count i (a ∷ xs) ≡ count i xs
count_other a i xs ne = ground arith

-- Whose turn comes first has been chosen as often as the other, or once more.
picks-Close :
    (k n x i j : ℕ)
    → i < n
    → j < n
    → turn n (x % n) i ≤ turn n (x % n) j
    → Close (count i (picks n k x)) (count j (picks n k x))
unfolding picks
picks-Close zero n x i j hi hj first = omega arith
picks-Close (suc k) n x i j hi hj first =
    let a = suc x % n in
    let rest = picks n k (suc x) in
    let low = mod-lt x {m = n} (omega arith) in
    let inside = mod-lt (suc x) {m = n} (omega arith) in
    let next = next_mod n x (omega arith) in
    elim (ℕ_discrete i a) [
      | yes p ↦ elim (ℕ_discrete j a) [
        | yes q ↦ omega (arith, ap (λ v. count v (picks n (suc k) x)) (p ∙ sym q))
        | no q ↦ omega (
          arith,
          count_head a i rest (sym p),
          count_other a j rest q,
          subst (λ v. Close (count j rest) (count v rest)) (sym p)
              (picks-Close k n (suc x) j a hj inside (turn_last n (x % n) a low next j hj)),
        )
      ]
      | no p ↦ elim (ℕ_discrete j a) [
        | yes q ↦ absurd (
            omega (
              arith,
              turn_next n (x % n) a low next i hi p,
              turn_first n (x % n) a low next,
              subst (λ v. turn n (x % n) i ≤ turn n (x % n) v) q first,
            ))
        | no q ↦
            rw (count_other a i rest p, count_other a j rest q)
              (picks-Close k n (suc x) i j hi hj (
                omega (
                  arith,
                  turn_next n (x % n) a low next i hi p,
                  turn_next n (x % n) a low next j hj q,
                )))
      ]
    ]

-- However many calls of `NextScheduler` follow one another, while the index does not wrap around,
-- no scheduler is chosen more than once more often than another.
pub round_robin :
    (m : SchedulerManager) (k i j : ℕ)
    → i < m.sched_num
    → j < m.sched_num
    → m.index + k < u32
    → count i (choices k m) ≤ suc (count j (choices k m))
round_robin m k i j hi hj small = rw (choices-picks k m small) (
    ground (
      arith,
      picks-Close k m.sched_num m.index i j hi hj,
      picks-Close k m.sched_num m.index j i hj hi,
    ))
