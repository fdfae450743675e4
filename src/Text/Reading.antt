-- ===== src/Text/Reading.antt =====
-- What `convert` writes, read back: the value, the alphabet and the length of its text.
use tit_co.Base.{
  true, ℕ, zero, suc, ◌+◌, ◌-◌, ◌*◌, ◌/◌, ◌^◌, ◌<◌, ◌≤◌, ◌≡◌, refl, ap, [], ◌∷◌, ◌++◌, reverse,
  arith, ◌==◌, if◌then◌else◌, length, length-reverse, All, All-reverse, ◌∙◌,
}
use tit_co.Base.Int.{ℤ, pos, negsuc, neg, mag}
use tit_co.Text.Digits.{Bytes, convert, is_negative}
use tit_co.Text.Decimal.{add_one, counted, counted_step, decimal, convert-eq-decimal}

-- The number that digits spell after `n`.
abbrev pub value : ℕ → Bytes → ℕ
value n [] = n
value n (c ∷ s) = value (n * 10 + (c - b'0')) s

unfoldable pub read : Bytes → ℤ
read [] = pos 0
read (c ∷ s) = if c == b'-' then neg (value 0 s) else pos (value 0 (c ∷ s))

abbrev pub IsDigit : ℕ → Type 0
IsDigit c = (b'0' ≤ c) × (c ≤ b'9')

-- The value of digits that stand from the last to the first.
worth : Bytes → ℕ
worth [] = 0
worth (d ∷ ds) = (d - b'0') + 10 * worth ds

value-append :
    (n : ℕ) (xs : Bytes) (c : ℕ) → value n (xs ++ (c ∷ [])) ≡ value n xs * 10 + (c - b'0')
value-append n [] c = refl
value-append n (x ∷ xs) c = value-append (n * 10 + (x - b'0')) xs c

value-reverse : (ds : Bytes) → value 0 (reverse ds) ≡ worth ds
unfolding worth
value-reverse [] = refl
value-reverse (d ∷ ds) = omega (arith, value-append 0 (reverse ds) d, value-reverse ds)

add_one-digits : (ds : Bytes) → All IsDigit ds → All IsDigit (add_one ds)
unfolding add_one
add_one-digits [] h = omega arith
add_one-digits (d ∷ ds) h = ground (arith, add_one-digits ds)

worth-add_one : (ds : Bytes) → All IsDigit ds → worth (add_one ds) ≡ suc (worth ds)
unfolding add_one worth
worth-add_one [] h = refl
worth-add_one (d ∷ ds) h = ground (arith, worth-add_one ds)

pub counted-digits : (n : ℕ) → All IsDigit (counted n)
unfolding counted
counted-digits zero = omega arith
counted-digits (suc n) = add_one-digits (counted n) (counted-digits n)

worth-counted : (n : ℕ) → worth (counted n) ≡ n
unfolding counted worth
worth-counted zero = refl
worth-counted (suc n) = worth-add_one (counted n) (counted-digits n) ∙ ap suc (worth-counted n)

pub value-counted : (n : ℕ) → value 0 (reverse (counted n)) ≡ n
value-counted n = value-reverse (counted n) ∙ worth-counted n

read_digits : (s : Bytes) → All IsDigit s → read s ≡ pos (value 0 s)
unfolding read
read_digits [] h = refl
read_digits (c ∷ s) h = ground arith

-- The text that `convert` writes for an integer reads back as that integer.
pub read-convert : (v : ℤ) → read (convert v) ≡ v
unfolding decimal
read-convert (pos n) = rw (convert-eq-decimal (pos n)) (
    read_digits (reverse (counted n)) (All-reverse IsDigit (counted n) (counted-digits n))
    ∙ ap pos (value-counted n))
read-convert (negsuc n) =
    ap read (convert-eq-decimal (negsuc n)) ∙ (unfold read in ap neg (value-counted (suc n)))

abbrev pub power : ℕ → ℕ
power zero = 1
power (suc k) = 10 * power k

pub length-counted : (k n : ℕ) → n < 10 * power k → length (counted n) ≤ suc k
length-counted zero n h = rw (counted_step n) (ground arith)
length-counted (suc k) n h = rw (counted_step n) (ground (arith, length-counted k (n / 10)))

-- No integer of at most 64 bits, signed or not, takes more than 20 characters.
pub length-convert :
    (v : ℤ) → mag v < 2 ^ 64 → (is_negative v ≡ true → mag v ≤ 2 ^ 63) → length (convert v) ≤ 20
unfolding decimal
length-convert (pos n) h k =
    rw (convert-eq-decimal (pos n)) (omega (arith, length-reverse (counted n), length-counted 19 n))
length-convert (negsuc n) h k =
    rw (convert-eq-decimal (negsuc n))
      (omega (arith, length-reverse (counted (suc n)), length-counted 18 (suc n), k refl))
