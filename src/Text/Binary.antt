-- ===== src/Text/Binary.antt =====
-- src/stream.cc: `formatIEC`, a number in six characters with a binary unit. A number from 2 ^ 53 on
-- is rounded to a double first; the quotients by powers of two are exact, and "%.2f" prints the
-- nearest decimal fraction, the even one of two.
pub mod Doubles
pub mod Digits
use tit_co.Base.{
  ℕ, zero, suc, ◌+◌, ◌*◌, ◌/◌, ◌%◌, ◌^◌, ◌==◌, ltb, if◌then◌else◌, List, [], ◌∷◌, ◌++◌,
}
use tit_co.Base.Int.{ℤ, pos, negsuc}
use tit_co.Text.Digits.{Bytes}
use tit_co.Text.Decimal.{decimal}
use tit_co.Text.Units.{fixed}

-- The integer nearest to n / u, the even one of two.
unfoldable pub nearest : ℕ → ℕ → ℕ
nearest n u =
    let q = n / u in
    let r = n % u in
    if ltb (2 * r) u then q else if ltb u (2 * r) then suc q else if q % 2 == 0 then q else suc q

-- The distance of the doubles around `n`, among `u` and its next `k` doublings.
unfoldable pub spacing : ℕ → ℕ → ℕ → ℕ
spacing zero n u = u
spacing (suc k) n u = let wider = spacing k n (2 * u) in if ltb n (2 ^ 53 * u) then u else wider

-- `static_cast<double>`, of a number below 2 ^ 63.
unfoldable pub to_double : ℕ → ℕ
unfolding nearest spacing
to_double n = let u = spacing 10 n 1 in nearest n u * u

-- A branch of `formatIEC`: the format has this many places, the divisor is 2 ^ `exponent`.
pub record Branch : Type 0 where
  pub places : ℕ
  pub exponent : ℕ
  pub suffix : ℕ

-- The tests `n < limit` with their branches, in the source's order, after the first: a limit is the
-- double that the product is, such as `Ki*9.995`, or the next integer.
abbrev pub branches : List (ℕ × Branch)
branches =
    (10235, record { places = 2; exponent = 10; suffix = b'K' })
    ∷ (102349, record { places = 1; exponent = 10; suffix = b'K' })
    ∷ (1048064, record { places = 0; exponent = 10; suffix = b'K' })
    ∷ (10480518, record { places = 2; exponent = 20; suffix = b'M' })
    ∷ (104805172, record { places = 1; exponent = 20; suffix = b'M' })
    ∷ (1073217536, record { places = 0; exponent = 20; suffix = b'M' })
    ∷ (10732049531, record { places = 2; exponent = 30; suffix = b'G' })
    ∷ (107320495309, record { places = 1; exponent = 30; suffix = b'G' })
    ∷ (1098974756864, record { places = 0; exponent = 30; suffix = b'G' })
    ∷ (10989618719622, record { places = 2; exponent = 40; suffix = b'T' })
    ∷ (109896187196212, record { places = 1; exponent = 40; suffix = b'T' })
    ∷ (1125350151028736, record { places = 0; exponent = 40; suffix = b'T' })
    ∷ (11253369568892026, record { places = 2; exponent = 50; suffix = b'P' })
    ∷ (112533695688920272, record { places = 1; exponent = 50; suffix = b'P' })
    ∷ (1152358554653425664, record { places = 0; exponent = 50; suffix = b'P' })
    ∷ (11523450438545434624, record { places = 2; exponent = 60; suffix = b'E' })
    ∷ []

abbrev pub exbi : Branch
exbi = record { places = 1; exponent = 60; suffix = b'E' }

unfoldable pub pick : ℕ → List (ℕ × Branch) → Branch
pick d [] = exbi
pick d ((limit, branch) ∷ rest) = let more = pick d rest in if ltb d limit then branch else more

-- What is printed of the quotient, in units of the last place.
unfoldable pub printed : Branch → ℕ → ℕ
unfolding nearest
printed branch d = nearest (d * 10 ^ branch.places) (2 ^ branch.exponent)

abbrev pub divided : Branch → ℕ → Bytes
unfolding fixed printed
divided branch d = fixed branch.places (printed branch d) ++ (branch.suffix ∷ b'i' ∷ [])

abbrev format_double : ℕ → ℕ → Bytes
unfolding decimal pick divided
format_double n d = if ltb d 1024 then decimal (pos n) else divided (pick d branches) d

unfoldable pub format_iec : ℤ → Bytes
unfolding decimal format_double to_double
format_iec (negsuc n) = decimal (negsuc n)
format_iec (pos n) = format_double n (to_double n)
