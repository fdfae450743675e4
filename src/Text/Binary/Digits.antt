-- ===== src/Text/Binary/Digits.antt =====
-- How many digits `formatIEC` of src/stream.cc shows, and how long its text is.
use tit_co.Base.{
  ℕ, zero, suc, ◌+◌, ◌*◌, ◌^◌, ◌<◌, ◌≤◌, ◌≡◌, ◌==◌, Bool, false, ltb, if◌then◌else◌, refl, sym,
  subst, dec_lt, List, [], ◌∷◌, length, length-append, All, Bool-cases, inl, inr, arith,
}
use tit_co.Base.Int.{pos}
use tit_co.Text.Digits.{Bytes}
use tit_co.Text.Binary.Doubles.{
  IsHalf, nearest-IsHalf, to_double_gap, to_double_exact, to_double_near, to_double_large,
}
use tit_co.Text.Units.Digits.{length-fixed, length-decimal}
use tit_co.Text.Units.{fixed}
use tit_co.Text.Units.Spelled.{IsSpelled, fixed-IsSpelled}
use tit_co.Text.Binary.{Branch, branches, exbi, to_double, pick, printed, divided, format_iec}

abbrev pub most : Branch → ℕ
most b = if b.places == 0 then 1023 else 999

-- Of a double `d`, this branch shows three digits, or four where it has no places.
abbrev Spans : ℕ → Branch → Type 0
Spans d b =
    (199 * 2 ^ b.exponent < 2 * (d * 10 ^ b.places))
    × (2 * (d * 10 ^ b.places) < (2 * most b + 1) * 2 ^ b.exponent)
    × (b.places ≤ 2)

-- What is printed: three digits, or four of a whole number.
abbrev pub IsShort : ℕ → Branch → Type 0
IsShort m b = (100 ≤ m) × (m ≤ most b) × (b.places ≤ 2)

digits :
    (x e m top : ℕ)
    → 199 * e < 2 * x
    → 2 * x < (2 * top + 1) * e
    → IsHalf x e m
    → (100 ≤ m) × (m ≤ top)
digits x e m top low high (a, b) = (grind arith, grind arith)

Chain : ℕ → ℕ → List (ℕ × Branch) → Type 0
Chain d low [] = low ≤ d → d < 2 ^ 63 + 1024 → Spans d exbi
Chain d low ((limit, branch) ∷ rest) = (low ≤ d → d < limit → Spans d branch) × Chain d limit rest

branches-Chain :
    (d : ℕ)
    → (d < 112533695688920272 → d ≤ 112533695688920256)
    → d < 2 ^ 63 + 1024
    → Chain d 1024 branches
unfolding Chain
branches-Chain d gap h = ground (arith, gap, h)

picked :
    (d low : ℕ) (bs : List (ℕ × Branch))
    → Chain d low bs
    → low ≤ d
    → d < 2 ^ 63 + 1024
    → Spans d (pick d bs)
unfolding Chain pick
picked d low [] c l h = c l h
picked d low ((limit, branch) ∷ rest) (c, cs) l h = elim (dec_lt d limit) [
  | yes lt ↦ subst (Spans d) (sym (if_yes lt)) (c l lt)
  | no ge ↦ subst (Spans d) (sym (if_no ge)) (picked d limit rest cs (omega (arith, ge)) h)
]
  where
    if_yes : d < limit → pick d ((limit, branch) ∷ rest) ≡ branch
    if_yes lt = ground (arith, lt)

    if_no : (d < limit → ⊥) → pick d ((limit, branch) ∷ rest) ≡ pick d rest
    if_no ge = ground (arith, ge)

power_pos : (k : ℕ) → 0 < 2 ^ k
power_pos zero = omega arith
power_pos (suc k) = omega (arith, power_pos k)

printed-IsShort : (d : ℕ) (b : Branch) → Spans d b → IsShort (printed b d) b
unfolding printed
printed-IsShort d b (low, high, few) =
    let x = d * 10 ^ b.places in
    let (least, greatest) =
      digits x (2 ^ b.exponent) (printed b d) (most b) low high
        (nearest-IsHalf x (2 ^ b.exponent) (power_pos b.exponent)) in
    (least, greatest, few)

fixed_short :
    (places m : ℕ)
    → m ≤ (if places == 0 then 1023 else 999)
    → places ≤ 2
    → length (fixed places m) ≤ 4
unfolding fixed
fixed_short zero m h few = length-decimal 3 m (omega (arith, h))
fixed_short (suc k) m h few = length-fixed (suc k) m (ground (arith, h)) few

length-divided : (d : ℕ) (b : Branch) → IsShort (printed b d) b → length (divided b d) ≤ 6
unfolding divided
length-divided d b (low, high, few) = omega (
  arith,
  length-append (fixed b.places (printed b d)) (b.suffix ∷ b'i' ∷ []),
  fixed_short b.places (printed b d) high few,
)

otherwise : (b : Bool) (s t : Bytes) → b ≡ false → (if b then s else t) ≡ t
otherwise b s t e = rw e refl

format_large :
    (n : ℕ)
    → 1024 ≤ to_double n
    → format_iec (pos n) ≡ divided (pick (to_double n) branches) (to_double n)
unfolding format_iec
format_large n l = otherwise (ltb (to_double n) 1024) _ _ (ground (arith, l))

-- The power of two that a prefix of the IEC stands for.
abbrev pub iec_exponent : ℕ → ℕ
iec_exponent c =
    if c == b'K'
    then 10
    else if c == b'M'
    then 20
    else if c == b'G'
    then 30
    else if c == b'T'
    then 40
    else if c == b'P'
    then 50
    else if c == b'E'
    then 60
    else 0

abbrev IsIec : Branch → Type 0
IsIec b = b.exponent ≡ iec_exponent b.suffix

pick-IsIec : (d : ℕ) (bs : List (ℕ × Branch)) → All (λ x. IsIec x.1) bs → IsIec (pick d bs)
unfolding pick
pick-IsIec d [] h = refl
pick-IsIec d ((limit, branch) ∷ rest) (h, hs) = elim (Bool-cases (ltb d limit)) [
  | inl lt ↦ rw lt h
  | inr ge ↦ rw ge (pick-IsIec d rest hs)
]

branches-IsIec : All (λ x. IsIec x.1) branches
branches-IsIec = ground arith

divided-IsSpelled :
    (d : ℕ) (b : Branch)
    → b.places ≤ 2
    → IsSpelled b.places (printed b d) (b.suffix ∷ b'i' ∷ []) (divided b d)
unfolding divided
divided-IsSpelled d b few = fixed-IsSpelled b.places (printed b d) (b.suffix ∷ b'i' ∷ []) few

-- The text of a number from 1024 to 2 ^ 63 - 1 has at most six characters. It is three digits, the
-- first of them not 0, with a point or without, or a whole number from 100 to 1023, and then an IEC
-- prefix (Ki to Ei). The number that these digits spell, times the power of two that the prefix stands
-- for, is at most half a unit of the last place away from the double that is nearest to the number,
-- which is the number itself below 2 ^ 53 and at most 512 away from it above.
pub format_iec_lem :
    (n : ℕ)
    → 1024 ≤ n
    → n < 2 ^ 63
    → let d = to_double n in
      let b = pick d branches in
      (length (format_iec (pos n)) ≤ 6)
      × IsSpelled b.places (printed b d) (b.suffix ∷ b'i' ∷ []) (format_iec (pos n))
      × IsShort (printed b d) b
      × (b.exponent ≡ iec_exponent b.suffix)
      × IsHalf (d * 10 ^ b.places) (2 ^ b.exponent) (printed b d)
      × (n < 2 ^ 53 → d ≡ n)
      × (2 * d ≤ 2 * n + 1024)
      × (2 * n ≤ 2 * d + 1024)
unfolding printed
format_iec_lem n l h =
    let d = to_double n in
    let b = pick d branches in
    let (near, close) = to_double_near n h in
    let least = to_double_large n l h in
    let spans =
      picked d 1024 branches (branches-Chain d (to_double_gap n) (omega arith)) least
        (omega arith) in
    let short = printed-IsShort d b spans in
    (
      rw (format_large n least) (length-divided d b short),
      rw (format_large n least) (divided-IsSpelled d b short.2),
      short,
      pick-IsIec d branches branches-IsIec,
      nearest-IsHalf (d * 10 ^ b.places) (2 ^ b.exponent) (power_pos b.exponent),
      to_double_exact n,
      near,
      close,
    )
