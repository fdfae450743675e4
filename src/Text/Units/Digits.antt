-- ===== src/Text/Units/Digits.antt =====
-- How many digits `formatSI` of src/stream.cc shows, and how long its text is.
use tit_co.Base.{
  ℕ, zero, suc, ◌+◌, ◌*◌, ◌/◌, ◌%◌, ◌^◌, ◌<◌, ◌≤◌, ◌≡◌, refl, sym, subst, ◌∙◌, dec_lt, List, [],
  ◌∷◌, length, length-append, length-reverse, arith,
}
use tit_co.Base.Int.{pos}
use tit_co.Text.Reading.{power, length-counted}
use tit_co.Text.Decimal.{counted, decimal}
use tit_co.Text.Units.{
  Scale, scales, exa, choose, scale_of, last_digits, fixed, scaled, format_si, unit, IsNearest,
}

-- From `low` on and below `high`, this scale shows three digits.
abbrev Spans : ℕ → ℕ → Scale → Type 0
Spans low high scale =
    (199 * unit scale < 2 * low) × (2 * high ≤ 1999 * unit scale) × (scale.places ≤ 2)

three_digits :
    (low high n m u : ℕ)
    → low ≤ n
    → n < high
    → 199 * u < 2 * low
    → 2 * high ≤ 1999 * u
    → 2 * (m * u) ≤ 2 * n + u
    → 2 * n ≤ 2 * (m * u) + u
    → (100 ≤ m) × (m ≤ 999)
three_digits low high n m u l h f t a b = (grind arith, grind arith)

Chain : ℕ → List (ℕ × Scale) → Type 0
Chain low [] = Spans low (2 ^ 63) exa
Chain low ((high, scale) ∷ rest) = Spans low high scale × Chain high rest

abbrev Shown : ℕ → Scale → Type 0
Shown m scale = (100 ≤ m) × (m ≤ 999) × (scale.places ≤ 2)

shown :
    (low high n m : ℕ) (scale : Scale)
    → Spans low high scale
    → low ≤ n
    → n < high
    → IsNearest scale n m
    → Shown m scale
shown low high n m scale (from, to, few) l h near =
    let (least, most) = three_digits low high n m (unit scale) l h from to near.above near.below in
    (least, most, few)

choose_here :
    (n high : ℕ) (scale : Scale) (rest : List (ℕ × Scale))
    → n < high
    → choose n ((high, scale) ∷ rest) ≡ scale
unfolding choose
choose_here n high scale rest h = ground (arith, h)

choose_later :
    (n high : ℕ) (scale : Scale) (rest : List (ℕ × Scale))
    → high ≤ n
    → choose n ((high, scale) ∷ rest) ≡ choose n rest
unfolding choose
choose_later n high scale rest h = ground (arith, h)

chosen :
    (low n m : ℕ) (branches : List (ℕ × Scale))
    → Chain low branches
    → low ≤ n
    → n < 2 ^ 63
    → IsNearest (choose n branches) n m
    → Shown m (choose n branches)
unfolding Chain choose
chosen low n m [] c l h = λ near. shown low (2 ^ 63) n m exa c l h near
chosen low n m ((high, scale) ∷ rest) (c, cs) l h = elim (dec_lt n high) [
  | yes lt ↦
      subst (λ s. IsNearest s n m → Shown m s) (sym (choose_here n high scale rest lt))
        (shown low high n m scale c l lt)
  | no ge ↦
      subst (λ s. IsNearest s n m → Shown m s)
        (sym (choose_later n high scale rest (omega (arith, ge))))
        (chosen high n m rest cs (omega (arith, ge)) h)
]

scales-Chain : Chain 1000 scales
unfolding Chain
scales-Chain = ground arith

scale_of-Shown :
    (n m : ℕ) → 1000 ≤ n → n < 2 ^ 63 → IsNearest (scale_of n) n m → Shown m (scale_of n)
unfolding scale_of
scale_of-Shown n m l h near = chosen 1000 n m scales scales-Chain l h near

pub length-decimal : (k n : ℕ) → n < 10 * power k → length (decimal (pos n)) ≤ suc k
unfolding decimal
length-decimal k n h = rw (length-reverse (counted n)) (length-counted k n h)

length-last : (k m : ℕ) → length (last_digits k m) ≡ k
length-last zero m = refl
length-last (suc k) m =
    length-append (last_digits k (m / 10)) ((b'0' + m % 10) ∷ [])
    ∙ rw (length-last k (m / 10)) (omega arith)

pub length-fixed : (k m : ℕ) → m ≤ 999 → k ≤ 2 → length (fixed k m) ≤ 4
unfolding fixed
length-fixed zero m h few = omega (arith, length-decimal 2 m (omega arith))
length-fixed (suc zero) m h few = omega (
  arith,
  length-append (decimal (pos (m / 10))) (b'.' ∷ last_digits 1 m),
  length-last 1 m,
  length-decimal 1 (m / 10) (omega arith),
)
length-fixed (suc (suc zero)) m h few = omega (
  arith,
  length-append (decimal (pos (m / 100))) (b'.' ∷ last_digits 2 m),
  length-last 2 m,
  length-decimal 0 (m / 100) (omega arith),
)
length-fixed (suc (suc (suc k))) m h few = absurd (omega arith)

length-scaled :
    (rounded : Scale → ℕ → ℕ) (scale : Scale) (n : ℕ)
    → Shown (rounded scale n) scale
    → length (scaled rounded scale n) ≤ 5
unfolding scaled
length-scaled rounded scale n (least, most, few) = omega (
  arith,
  length-append (fixed scale.places (rounded scale n)) (scale.suffix ∷ []),
  length-fixed scale.places (rounded scale n) most few,
)

format_small :
    (rounded : Scale → ℕ → ℕ) (n : ℕ) → n < 1000 → format_si rounded (pos n) ≡ decimal (pos n)
unfolding format_si scale_of
format_small rounded n h = ground (arith, h)

format_large :
    (rounded : Scale → ℕ → ℕ) (n : ℕ)
    → 1000 ≤ n
    → format_si rounded (pos n) ≡ scaled rounded (scale_of n) n
unfolding format_si
format_large rounded n h = ground (arith, h)

-- A number below 1000 is printed as it is.
format_si_small :
    (rounded : Scale → ℕ → ℕ) (n : ℕ) → n < 1000 → length (format_si rounded (pos n)) ≤ 3
format_si_small rounded n h = rw (format_small rounded n h) (length-decimal 2 n (omega arith))

-- The text of a number from 1000 to 2 ^ 63 - 1 has at most five characters and shows three digits,
-- the first of them not 0, where what is printed of the quotient is nearest to it; so it is wrong by
-- half a unit of the third digit at most.
pub format_si_lem :
    (rounded : Scale → ℕ → ℕ) (n : ℕ)
    → 1000 ≤ n
    → n < 2 ^ 63
    → IsNearest (scale_of n) n (rounded (scale_of n) n)
    → (length (format_si rounded (pos n)) ≤ 5)
      × (100 ≤ rounded (scale_of n) n)
      × (rounded (scale_of n) n ≤ 999)
format_si_lem rounded n l h near =
    let (least, most, few) = scale_of-Shown n (rounded (scale_of n) n) l h near in
    (
      rw (format_large rounded n l) (length-scaled rounded (scale_of n) n (least, most, few)),
      least,
      most,
    )
