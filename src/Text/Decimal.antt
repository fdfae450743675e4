-- ===== src/Text/Decimal.antt =====
-- `convert` against the way one counts: the text of n + 1 is the text of n with one added to its
-- last digit, and the carry.
use mathlib.Core.WellFounded
use mathlib.Core.WellFounded.{Acc, Acc-prop, WellFounded}
use mathlib.Core.Logic.{dite}
use tit_co.Base.{
  ℕ, zero, suc, ◌+◌, ◌/◌, ◌%◌, ◌<◌, ◌≡◌, refl, ap, ◌∙◌, [], ◌∷◌, ◌++◌, reverse, dec_lt, arith, ◌==◌,
  if◌then◌else◌, ite, append_assoc,
}
use tit_co.Base.Int.{ℤ, pos, negsuc, neg, mag, mag-neg, quot, rem, ◌≺◌, ≺_wf, quot_lt}
use tit_co.Text.Digits.{Bytes, digit, emit, convert}

-- One more, on digits from the last to the first.
unfoldable pub add_one : Bytes → Bytes
add_one [] = b'1' ∷ []
add_one (d ∷ ds) = if d == b'9' then b'0' ∷ add_one ds else (d + 1) ∷ ds

unfoldable pub counted : ℕ → Bytes
counted zero = b'0' ∷ []
counted (suc n) = add_one (counted n)

unfoldable pub decimal : ℤ → Bytes
decimal (pos n) = reverse (counted n)
decimal (negsuc n) = b'-' ∷ reverse (counted (suc n))

add_one-tail : (q : ℕ) → add_one (if q == 0 then [] else counted q) ≡ counted (suc q)
unfolding counted add_one
add_one-tail zero = refl
add_one-tail (suc q) = ground arith

counted-suc : (n : ℕ) → counted (suc n) ≡ add_one (counted n)
unfolding counted
counted-suc n = refl

add_one_step :
    (n : ℕ)
    → add_one ((b'0' + n % 10) ∷ (if n / 10 == 0 then [] else counted (n / 10)))
      ≡ (b'0' + suc n % 10) ∷ (if suc n / 10 == 0 then [] else counted (suc n / 10))
unfolding add_one
add_one_step n = elim (dec_lt (n % 10) 9) [
  | yes h ↦ let same : suc n / 10 ≡ n / 10 = omega arith in rw same (ground arith)
  | no h ↦
      let more : suc n / 10 ≡ suc (n / 10) = omega arith in
      rw more (ground (arith, add_one-tail (n / 10)))
]

pub counted_step :
    (n : ℕ) → counted n ≡ (b'0' + n % 10) ∷ (if n / 10 == 0 then [] else counted (n / 10))
unfolding counted
counted_step zero = refl
counted_step (suc n) = rw (counted_step n) (add_one_step n)

digit-rem : (i : ℤ) → digit (rem i 10) ≡ b'0' + mag i % 10
digit-rem (pos n) = digit_pos (n % 10) (omega arith)
  where
    digit_pos : (d : ℕ) → d < 10 → digit (pos d) ≡ b'0' + d
    digit_pos d h = grind arith
digit-rem (negsuc n) = digit_neg (suc n % 10) (omega arith)
  where
    digit_neg : (d : ℕ) → d < 10 → digit (neg d) ≡ b'0' + d
    digit_neg d h = grind arith

emit_step :
    (i : ℤ) (w : Acc ◌≺◌ i) (w' : Acc ◌≺◌ (quot i 10)) (buf : Bytes)
    → emit i w buf
      ≡ ite
          (dec_lt 0 (mag (quot i 10)))
          (emit (quot i 10) w' (buf ++ (digit (rem i 10) ∷ [])))
          (buf ++ (digit (rem i 10) ∷ []))
unfolding emit
emit_step i (Acc.intro _ smaller) w' buf = λ k.
    dite (dec_lt 0 (mag (quot i 10)))
      (λ h.
        emit (quot i 10) (Acc-prop (smaller (quot i 10) (quot_lt i h)) w' k)
          (buf ++ (digit (rem i 10) ∷ [])))
      (λ _. buf ++ (digit (rem i 10) ∷ []))

mag-quot : (i : ℤ) → mag (quot i 10) ≡ mag i / 10
mag-quot (pos n) = refl
mag-quot (negsuc n) = mag-neg (suc n / 10)

-- The loop appends the counted digits.
emit_lem : (i : ℤ) (buf : Bytes) → emit i (≺_wf.apply i) buf ≡ buf ++ counted (mag i)
emit_lem i =
    WellFounded.induction ≺_wf
      {C = λ j. (buf : Bytes) → emit j (≺_wf.apply j) buf ≡ buf ++ counted (mag j)} i
      λ j ih buf. ground (
        arith,
        emit_step j (≺_wf.apply j) (≺_wf.apply (quot j 10)) buf,
        mag-quot j,
        counted_step (mag j),
        digit-rem j,
        ih (quot j 10) (quot_lt j _) (buf ++ (digit (rem j 10) ∷ [])),
        append_assoc buf (digit (rem j 10) ∷ []) (counted (mag j / 10)),
      )

pub append-reverse : (xs : Bytes) (c : ℕ) → reverse (xs ++ (c ∷ [])) ≡ c ∷ reverse xs
append-reverse [] c = refl
append-reverse (x ∷ xs) c = ap (λ r. r ++ (x ∷ [])) (append-reverse xs c)

-- `convert` writes the text that counting from "0" upwards reaches, with a '-' before it for a
-- negative number: for every integer, the least one of a type included.
pub convert-eq-decimal : (v : ℤ) → convert v ≡ decimal v
unfolding convert decimal
convert-eq-decimal (pos n) = ap reverse (emit_lem (pos n) [])
convert-eq-decimal (negsuc n) =
    ap (λ r. reverse (r ++ (b'-' ∷ []))) (emit_lem (negsuc n) [])
    ∙ append-reverse (counted (suc n)) b'-'
