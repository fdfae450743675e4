-- ===== src/Text/Hex.antt =====
-- `convertHex`, read back, and the length of its text.
use mathlib.Core.WellFounded
use mathlib.Core.WellFounded.{Acc, Acc-prop}
use mathlib.Core.Logic.{dite}
use tit_co.Base.{
  ℕ, zero, suc, ◌+◌, ◌-◌, ◌*◌, ◌/◌, ◌%◌, ◌^◌, ◌<◌, ◌≤◌, ◌≡◌, ap, ◌∙◌, [], ◌∷◌, ◌++◌, get_or,
  reverse, dec_lt, arith, leb, if◌then◌else◌, ite, length, length-append, length-reverse,
}
use tit_co.Text.Digits.{Bytes, digits_hex, emit_hex, lt_wf, sixteenth_lt, convert_hex}
use tit_co.Text.Decimal.{append-reverse}

abbrev pub nibble : ℕ → ℕ
nibble c = if leb c b'9' then c - b'0' else c - b'A' + 10

-- The number that upper-case hexadecimal digits spell after `n`.
unfoldable pub hex_value : ℕ → Bytes → ℕ
hex_value n [] = n
hex_value n (c ∷ s) = hex_value (n * 16 + nibble c) s

hex_digit : ℕ → ℕ
hex_digit n = get_or digits_hex n 0

nibble-hex_digit : (d : ℕ) → d < 16 → nibble (hex_digit d) ≡ d
unfolding hex_digit
nibble-hex_digit d h = grind arith

emit_hex_step :
    (i : ℕ) (w : Acc ◌<◌ i) (w' : Acc ◌<◌ (i / 16)) (buf : Bytes)
    → emit_hex i w buf
      ≡ ite
          (dec_lt 0 (i / 16))
          (emit_hex (i / 16) w' (buf ++ (hex_digit (i % 16) ∷ [])))
          (buf ++ (hex_digit (i % 16) ∷ []))
unfolding emit_hex hex_digit
emit_hex_step i (Acc.intro _ smaller) w' buf = λ k.
    let written = buf ++ (get_or digits_hex (i % 16) 0 ∷ []) in
    dite (dec_lt 0 (i / 16))
      (λ h. emit_hex (i / 16) (Acc-prop (smaller (i / 16) (sixteenth_lt i h)) w' k) written)
      (λ _. written)

-- A digit that is appended is the first one of the reversed text.
value_digit :
    (n i : ℕ) (buf : Bytes)
    → hex_value n (reverse (buf ++ (hex_digit (i % 16) ∷ [])))
      ≡ hex_value (n * 16 + i % 16) (reverse buf)
unfolding hex_value
value_digit n i buf =
    ap (hex_value n) (append-reverse buf (hex_digit (i % 16)))
    ∙ ap (λ d. hex_value (n * 16 + d) (reverse buf)) (nibble-hex_digit (i % 16) (omega arith))

value-emit_hex :
    (i : ℕ) (buf : Bytes)
    → hex_value 0 (reverse (emit_hex i (lt_wf.apply i) buf)) ≡ hex_value i (reverse buf)
value-emit_hex i =
    WellFounded.induction lt_wf
      {C = λ j.
        (buf : Bytes)
        → hex_value 0 (reverse (emit_hex j (lt_wf.apply j) buf)) ≡ hex_value j (reverse buf)}
      i
      λ j ih buf. ground (
        arith,
        emit_hex_step j (lt_wf.apply j) (lt_wf.apply (j / 16)) buf,
        ih (j / 16) (sixteenth_lt j _) (buf ++ (hex_digit (j % 16) ∷ [])),
        value_digit (j / 16) j buf,
        value_digit 0 j buf,
      )

-- The text that `convertHex` writes for a pointer reads back as that pointer.
pub value-convert_hex : (v : ℕ) → hex_value 0 (convert_hex v) ≡ v
unfolding convert_hex hex_value
value-convert_hex v = value-emit_hex v []

abbrev pub power16 : ℕ → ℕ
power16 zero = 1
power16 (suc k) = 16 * power16 k

length-emit_hex :
    (k i : ℕ) (buf : Bytes)
    → i < 16 * power16 k
    → length (emit_hex i (lt_wf.apply i) buf) ≤ suc k + length buf
length-emit_hex zero i buf h = ground (
  arith,
  emit_hex_step i (lt_wf.apply i) (lt_wf.apply (i / 16)) buf,
  length-append buf (hex_digit (i % 16) ∷ []),
)
length-emit_hex (suc k) i buf h = ground (
  arith,
  emit_hex_step i (lt_wf.apply i) (lt_wf.apply (i / 16)) buf,
  length-append buf (hex_digit (i % 16) ∷ []),
  length-emit_hex k (i / 16) (buf ++ (hex_digit (i % 16) ∷ [])),
)

pub length-convert_hex : (v : ℕ) → v < 2 ^ 64 → length (convert_hex v) ≤ 16
unfolding convert_hex
length-convert_hex v h =
    omega (arith, length-reverse (emit_hex v (lt_wf.apply v) []), length-emit_hex 15 v [])
