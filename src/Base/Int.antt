-- ===== src/Base/Int.antt =====
-- Signed integers over the native numbers, with the division of C: it rounds to zero.
use Prim.Native.Nat.{ℕ, zero, suc, ◌/◌, ◌%◌, ◌<◌}
use mathlib.Core.Path.{◌≡◌, refl}
use mathlib.Core.WellFounded.{Acc, WellFounded}
use native.Mathlib.Omega.{arith}

-- `negsuc n` is -(n + 1).
pub data ℤ : Type 0 where
  pos : ℕ → ℤ
  negsuc : ℕ → ℤ

abbrev pub mag : ℤ → ℕ
mag (pos n) = n
mag (negsuc n) = suc n

abbrev pub neg : ℕ → ℤ
neg zero = pos 0
neg (suc n) = negsuc n

-- `a / d` and `a % d` of C at a positive `d`: the remainder has the sign of `a`.
abbrev pub quot : ℤ → ℕ → ℤ
quot (pos n) d = pos (n / d)
quot (negsuc n) d = neg (suc n / d)

abbrev pub rem : ℤ → ℕ → ℤ
rem (pos n) d = pos (n % d)
rem (negsuc n) d = neg (suc n % d)

pub mag-neg : (n : ℕ) → mag (neg n) ≡ n
mag-neg zero = refl
mag-neg (suc n) = refl

-- The order by which the loops over the digits of a number end.
infix 50 ◌≺◌
abbrev pub ◌≺◌ : ℤ → ℤ → Type 0
a ≺ b = mag a < mag b

acc_below : (k : ℕ) (i : ℤ) → mag i < k → Acc ◌≺◌ i
acc_below zero i h = absurd (omega arith)
acc_below (suc k) i h = Acc.intro i λ j lt. acc_below k j (omega arith)

unfoldable pub ≺_wf : WellFounded ◌≺◌
unfolding acc_below
≺_wf = record { apply = λ i. acc_below (suc (mag i)) i (omega arith) }

pub quot_lt : (i : ℤ) → 0 < mag (quot i 10) → mag (quot i 10) < mag i
quot_lt (pos n) h = omega arith
quot_lt (negsuc n) h = omega (arith, mag-neg (suc n / 10))
