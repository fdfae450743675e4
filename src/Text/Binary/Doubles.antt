-- ===== src/Text/Binary/Doubles.antt =====
-- How far `static_cast<double>` moves a number, which src/stream.cc does before it prints with a unit.
use native.Mathlib.Nat.{mod-lt}
use native.Mathlib.Omega.{div_any}
use tit_co.Base.{
  ℕ, zero, suc, ◌+◌, ◌*◌, ◌/◌, ◌%◌, ◌^◌, ◌<◌, ◌≤◌, ◌≡◌, ◌⊎◌, inl, inr, sym, subst, ◌∙◌, dec_lt,
  arith,
}
use tit_co.Text.Binary.{nearest, spacing, to_double}

nearest-cases :
    (n u : ℕ)
    → ((nearest n u ≡ n / u) × (2 * (n % u) ≤ u))
      ⊎ ((nearest n u ≡ suc (n / u)) × (u ≤ 2 * (n % u)))
unfolding nearest
nearest-cases n u = ground arith

-- `m` times `u` is at most half of `u` away from `n`.
abbrev pub IsHalf : ℕ → ℕ → ℕ → Type 0
IsHalf n u m = (2 * (m * u) ≤ 2 * n + u) × (2 * n ≤ 2 * (m * u) + u)

pub nearest-IsHalf : (n u : ℕ) → 0 < u → IsHalf n u (nearest n u)
nearest-IsHalf n u h =
    let whole = div_any n u in
    let small = mod-lt n h in
    elim (nearest-cases n u) [
      | inl (e, few) ↦ subst (IsHalf n u) (sym e) (grind arith, grind arith)
      | inr (e, many) ↦ subst (IsHalf n u) (sym e) (grind arith, grind arith)
    ]

-- The distance is a multiple of the least one that is tried.
spacing-lem : (k n u : ℕ) → 0 < u → (v : ℕ) × (spacing k n u ≡ v * u) × (0 < v) × (v ≤ 2 ^ k)
unfolding spacing
spacing-lem zero n u h = (1, omega arith, omega arith, omega arith)
spacing-lem (suc k) n u h =
    let (v, e, some_, few) = spacing-lem k n (2 * u) (omega (arith, h)) in
    elim (dec_lt n (2 ^ 53 * u)) [
      | yes lt ↦ (1, ground arith, omega arith, grind arith)
      | no ge ↦ (2 * v, ground (arith, e), omega (arith, some_), grind arith)
    ]

spacing_large : (n : ℕ) → 2 ^ 56 ≤ n → spacing 10 n 1 ≡ spacing 6 n 16
unfolding spacing
spacing_large n h = ground (arith, h)

spacing_few : (n : ℕ) → (0 < spacing 10 n 1) × (spacing 10 n 1 ≤ 1024)
spacing_few n =
    let (v, e, some_, few) = spacing-lem 10 n 1 (omega arith) in (omega arith, omega arith)

sixteenths : (m u v : ℕ) → u ≡ v * 16 → m * u ≡ m * v * 16
sixteenths m u v e = rw e (grind arith)

-- A double below the limit `Pi*99.95` is the one before it at most.
pub to_double_gap : (n : ℕ) → to_double n < 112533695688920272 → to_double n ≤ 112533695688920256
unfolding to_double
to_double_gap n h = elim (dec_lt n (2 ^ 56)) [
  | yes lt ↦
      let (some_, few) = spacing_few n in
      let (low, high) = nearest-IsHalf n (spacing 10 n 1) some_ in omega arith
  | no ge ↦
      let (v, e, some_, few) = spacing-lem 6 n 16 (omega arith) in
      let u = spacing 10 n 1 in
      let whole = sixteenths (nearest n u) u v (spacing_large n (omega (arith, ge)) ∙ e) in
      omega (arith, whole, h)
]

spacing_small : (n : ℕ) → n < 2 ^ 53 → spacing 10 n 1 ≡ 1
unfolding spacing
spacing_small n h = ground (arith, h)

-- A number below 2 ^ 53 is a double.
pub to_double_exact : (n : ℕ) → n < 2 ^ 53 → to_double n ≡ n
unfolding to_double
to_double_exact n h =
    let (low, high) = nearest-IsHalf n 1 (omega arith) in rw (spacing_small n h) (omega arith)

pub to_double_near :
    (n : ℕ) → n < 2 ^ 63 → (2 * to_double n ≤ 2 * n + 1024) × (2 * n ≤ 2 * to_double n + 1024)
unfolding to_double
to_double_near n h =
    let (some_, few) = spacing_few n in
    let (low, high) = nearest-IsHalf n (spacing 10 n 1) some_ in (omega arith, omega arith)

pub to_double_large : (n : ℕ) → 1024 ≤ n → n < 2 ^ 63 → 1024 ≤ to_double n
to_double_large n l h = elim (dec_lt n (2 ^ 53)) [
  | yes small ↦ omega (arith, to_double_exact n small, l)
  | no ge ↦ omega (arith, to_double_near n h)
]
