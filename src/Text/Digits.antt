-- ===== src/Text/Digits.antt =====
-- stream.cc: `convert` and `convertHex`, the loops that write the digits of a number.
use Prim.Native.Char.{code}
use Prim.Native.String.{String}
use mathlib.Core.Logic.{dite}
use mathlib.Core.WellFounded.{Acc, WellFounded}
use tit_co.Base.{
  ℕ, zero, suc, ◌+◌, ◌-◌, ◌/◌, ◌%◌, ◌^◌, ◌<◌, ◌≡◌, refl, List, [], ◌∷◌, ◌++◌, get_or, reverse, Bool,
  true, false, dec_lt, arith, if◌then◌else◌,
}
use tit_co.Base.Int.{ℤ, pos, negsuc, mag, quot, rem, ◌≺◌, ≺_wf, quot_lt}

abbrev pub Bytes : Type 0
Bytes = List ℕ

-- The bytes of an ASCII literal.
abbrev pub codes : String → Bytes
codes String.[] = []
codes (String.◌∷◌ c s) = code c ∷ codes s

abbrev pub digits : Bytes
digits = codes "9876543210123456789"

-- `zero[lsd]` with `zero = digits + 9`, so that a negative remainder has its digit too.
abbrev pub digit : ℤ → ℕ
digit (pos n) = get_or digits (9 + n) 0
digit (negsuc n) = get_or digits (8 - n) 0

abbrev pub is_negative : ℤ → Bool
is_negative (pos n) = false
is_negative (negsuc n) = true

-- The `do … while (i != 0)` loop of `convert`; `buf` is what stands before `p`.
unfoldable pub emit : (i : ℤ) → Acc ◌≺◌ i → Bytes → Bytes
emit i (Acc.intro _ smaller) buf =
    let next = quot i 10 in
    let written = buf ++ (digit (rem i 10) ∷ []) in
    dite (dec_lt 0 (mag next)) (λ h. emit next (smaller next (quot_lt i h)) written) (λ _. written)

-- `convert`: the digits from the last to the first, then the sign, then `std::reverse`.
unfoldable pub convert : ℤ → Bytes
unfolding emit ≺_wf
convert value =
    let written = emit value (≺_wf.apply value) [] in
    reverse (if is_negative value then written ++ (b'-' ∷ []) else written)

abbrev pub digits_hex : Bytes
digits_hex = codes "0123456789ABCDEF"

acc_below : (k n : ℕ) → n < k → Acc ◌<◌ n
acc_below zero n h = absurd (omega arith)
acc_below (suc k) n h = Acc.intro n λ m lt. acc_below k m (omega arith)

unfoldable pub lt_wf : WellFounded ◌<◌
unfolding acc_below
lt_wf = record { apply = λ n. acc_below (suc n) n (omega arith) }

pub sixteenth_lt : (n : ℕ) → 0 < n / 16 → n / 16 < n
sixteenth_lt n h = omega arith

unfoldable pub emit_hex : (i : ℕ) → Acc ◌<◌ i → Bytes → Bytes
emit_hex i (Acc.intro _ smaller) buf =
    let next = i / 16 in
    let written = buf ++ (get_or digits_hex (i % 16) 0 ∷ []) in
    dite (dec_lt 0 next) (λ h. emit_hex next (smaller next (sixteenth_lt i h)) written)
      (λ _. written)

unfoldable pub convert_hex : ℕ → Bytes
unfolding emit_hex lt_wf
convert_hex value = reverse (emit_hex value (lt_wf.apply value) [])

least_int64 : convert (negsuc (2 ^ 63 - 1)) ≡ codes "-9223372036854775808"
unfolding convert emit ≺_wf dec_lt
least_int64 = refl

nothing : convert (pos 0) ≡ codes "0"
unfolding convert emit ≺_wf dec_lt
nothing = refl

hex : convert_hex 48879 ≡ codes "BEEF"
unfolding convert_hex emit_hex lt_wf dec_lt
hex = refl
