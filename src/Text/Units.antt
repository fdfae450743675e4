-- ===== src/Text/Units.antt =====
-- src/stream.cc: `formatSI`, a number in five characters with a decimal unit. What "%.2f" prints of
-- a quotient of doubles is a parameter.
pub mod Digits
pub mod Spelled
use tit_co.Base.{
  ℕ, zero, suc, ◌+◌, ◌-◌, ◌*◌, ◌/◌, ◌%◌, ◌^◌, ◌<◌, ◌≤◌, ◌≡◌, refl, sym, subst, ◌∙◌, ltb,
  if◌then◌else◌, dec_lt, List, [], ◌∷◌, ◌++◌, length, length-append, length-reverse, arith,
}
use tit_co.Base.Int.{ℤ, pos, negsuc}
use tit_co.Text.Digits.{Bytes}
use tit_co.Text.Reading.{power, length-counted}
use tit_co.Text.Decimal.{counted, decimal}

-- A branch of `formatSI`: the format has this many places, the divisor is 10 ^ `exponent`.
pub record Scale : Type 0 where
  pub places : ℕ
  pub exponent : ℕ
  pub suffix : ℕ

-- The tests `s < limit` with their branches, in the source's order, after the first.
abbrev pub scales : List (ℕ × Scale)
scales =
    (9995, record { places = 2; exponent = 3; suffix = b'k' })
    ∷ (99950, record { places = 1; exponent = 3; suffix = b'k' })
    ∷ (999500, record { places = 0; exponent = 3; suffix = b'k' })
    ∷ (9995000, record { places = 2; exponent = 6; suffix = b'M' })
    ∷ (99950000, record { places = 1; exponent = 6; suffix = b'M' })
    ∷ (999500000, record { places = 0; exponent = 6; suffix = b'M' })
    ∷ (9995000000, record { places = 2; exponent = 9; suffix = b'G' })
    ∷ (99950000000, record { places = 1; exponent = 9; suffix = b'G' })
    ∷ (999500000000, record { places = 0; exponent = 9; suffix = b'G' })
    ∷ (9995000000000, record { places = 2; exponent = 12; suffix = b'T' })
    ∷ (99950000000000, record { places = 1; exponent = 12; suffix = b'T' })
    ∷ (999500000000000, record { places = 0; exponent = 12; suffix = b'T' })
    ∷ (9995000000000000, record { places = 2; exponent = 15; suffix = b'P' })
    ∷ (99950000000000000, record { places = 1; exponent = 15; suffix = b'P' })
    ∷ (999500000000000000, record { places = 0; exponent = 15; suffix = b'P' })
    ∷ []

abbrev pub exa : Scale
exa = record { places = 2; exponent = 18; suffix = b'E' }

unfoldable pub choose : ℕ → List (ℕ × Scale) → Scale
choose n [] = exa
choose n ((limit, scale) ∷ rest) = let more = choose n rest in if ltb n limit then scale else more

unfoldable pub scale_of : ℕ → Scale
unfolding choose
scale_of n = choose n scales

-- The last `k` digits of a number.
abbrev pub last_digits : ℕ → ℕ → Bytes
last_digits zero m = []
last_digits (suc k) m = last_digits k (m / 10) ++ ((b'0' + m % 10) ∷ [])

-- The text of `m` units of the last place.
unfoldable pub fixed : ℕ → ℕ → Bytes
unfolding decimal
fixed zero m = decimal (pos m)
fixed (suc k) m = decimal (pos (m / 10 ^ suc k)) ++ (b'.' ∷ last_digits (suc k) m)

-- `rounded scale n` is what is printed of n / 10 ^ exponent, counted in units of the last place.
module _ (rounded : Scale → ℕ → ℕ) where
  abbrev pub scaled : Scale → ℕ → Bytes
  unfolding fixed
  scaled scale n = fixed scale.places (rounded scale n) ++ (scale.suffix ∷ [])

  unfoldable pub format_si : ℤ → Bytes
  unfolding scaled scale_of decimal
  format_si (negsuc n) = decimal (negsuc n)
  format_si (pos n) = if ltb n 1000 then decimal (pos n) else scaled (scale_of n) n

-- The unit of the last place.
abbrev pub unit : Scale → ℕ
unit scale = 10 ^ (scale.exponent - scale.places)

-- A number of units that is nearest to `n`, either of two where two are.
pub record IsNearest (scale : Scale) (n m : ℕ) : Type 0 where
  pub above : 2 * (m * unit scale) ≤ 2 * n + unit scale
  pub below : 2 * n ≤ 2 * (m * unit scale) + unit scale
