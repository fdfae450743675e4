-- ===== src/Text/Units/Spelled.antt =====
-- What "%.0f", "%.1f" and "%.2f" of src/stream.cc print, read back.
use tit_co.Base.{
  ℕ, zero, suc, ◌/◌, ◌≤◌, ◌≡◌, refl, [], ◌∷◌, ◌++◌, append_assoc, length, All, All-reverse, arith,
}
use tit_co.Base.Int.{pos}
use tit_co.Text.Digits.{Bytes}
use tit_co.Text.Decimal.{counted, decimal}
use tit_co.Text.Reading.{value, value-counted, IsDigit, counted-digits}
use tit_co.Text.Units.{fixed, last_digits}

-- The point of a number with places.
abbrev pub point : ℕ → Bytes
point zero = []
point (suc k) = b'.' ∷ []

-- The text is digits that spell `m`, with a point before the last `places` of them, if there are any,
-- and `unit` behind it.
pub record IsSpelled (places m : ℕ) (unit text : Bytes) : Type 0 where
  pub whole : Bytes
  pub fraction : Bytes
  pub parts : text ≡ whole ++ (point places ++ (fraction ++ unit))
  pub places_lem : length fraction ≡ places
  pub whole_digits : All IsDigit whole
  pub fraction_digits : All IsDigit fraction
  pub spells : value (value 0 whole) fraction ≡ m

value-decimal : (n : ℕ) → value 0 (decimal (pos n)) ≡ n
unfolding decimal
value-decimal n = value-counted n

decimal-digits : (n : ℕ) → All IsDigit (decimal (pos n))
unfolding decimal
decimal-digits n = All-reverse IsDigit (counted n) (counted-digits n)

pub fixed-IsSpelled :
    (places m : ℕ) (unit : Bytes) → places ≤ 2 → IsSpelled places m unit (fixed places m ++ unit)
unfolding fixed
fixed-IsSpelled zero m unit few = record {
  whole = decimal (pos m);
  fraction = [];
  parts = refl;
  places_lem = refl;
  whole_digits = decimal-digits m;
  fraction_digits = tt;
  spells = value-decimal m;
}
fixed-IsSpelled (suc zero) m unit few = record {
  whole = decimal (pos (m / 10));
  fraction = last_digits 1 m;
  parts = append_assoc (decimal (pos (m / 10))) (b'.' ∷ last_digits 1 m) unit;
  places_lem = refl;
  whole_digits = decimal-digits (m / 10);
  fraction_digits = omega arith;
  spells = omega (arith, value-decimal (m / 10));
}
fixed-IsSpelled (suc (suc zero)) m unit few = record {
  whole = decimal (pos (m / 100));
  fraction = last_digits 2 m;
  parts = append_assoc (decimal (pos (m / 100))) (b'.' ∷ last_digits 2 m) unit;
  places_lem = refl;
  whole_digits = decimal-digits (m / 100);
  fraction_digits = omega arith;
  spells = omega (arith, value-decimal (m / 100));
}
fixed-IsSpelled (suc (suc (suc k))) m unit few = absurd (omega arith)
