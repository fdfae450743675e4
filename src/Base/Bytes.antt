-- ===== src/Base/Bytes.antt =====
-- `memcpy` of a block out of a memory and into it, byte by byte.
use Prim.Native.Nat.{ℕ, zero, suc, ◌+◌, ◌≤◌, ◌<◌}
use mathlib.Core.Path.{◌≡◌, refl, ap, ap₂, ◌∙◌}
use mathlib.Core.Logic.{◌⊎◌, inl}
use mathlib.Core.List.{List, [], ◌∷◌, ◌++◌}
use native.Mathlib.Omega.{arith}
use tit_co.Base.Lists.{length, get_or, set, length-set, get_or-set_self, get_or-set_ne}

unfoldable pub read_block : List ℕ → ℕ → ℕ → List ℕ
read_block buf off zero = []
read_block buf off (suc n) = get_or buf off 0 ∷ read_block buf (suc off) n

unfoldable pub write_block : List ℕ → ℕ → List ℕ → List ℕ
write_block buf off [] = buf
write_block buf off (x ∷ xs) = write_block (set buf off x) (suc off) xs

pub length-read_block : (buf : List ℕ) (off n : ℕ) → length (read_block buf off n) ≡ n
unfolding read_block
length-read_block buf off zero = refl
length-read_block buf off (suc n) = ap suc (length-read_block buf (suc off) n)

pub length-write_block :
    (buf : List ℕ) (off : ℕ) (bs : List ℕ) → length (write_block buf off bs) ≡ length buf
unfolding write_block
length-write_block buf off [] = refl
length-write_block buf off (x ∷ xs) =
    omega (arith, length-write_block (set buf off x) (suc off) xs, length-set buf off x)

-- A byte outside the range that is written.
write_block-outside :
    (buf : List ℕ) (off : ℕ) (bs : List ℕ) (j : ℕ)
    → (j < off) ⊎ (off + length bs ≤ j)
    → get_or (write_block buf off bs) j 0 ≡ get_or buf j 0
unfolding write_block
write_block-outside buf off [] j h = refl
write_block-outside buf off (x ∷ xs) j h =
    ground (arith, write_block-outside (set buf off x) (suc off) xs j, get_or-set_ne buf off j x 0)

pub read-write_same :
    (buf : List ℕ) (off : ℕ) (bs : List ℕ)
    → off + length bs ≤ length buf
    → read_block (write_block buf off bs) off (length bs) ≡ bs
unfolding read_block write_block
read-write_same buf off [] h = refl
read-write_same buf off (x ∷ xs) h = ground (
  arith,
  write_block-outside (set buf off x) (suc off) xs off,
  get_or-set_self buf off x 0,
  length-set buf off x,
  read-write_same (set buf off x) (suc off) xs,
)

pub read-write_other :
    (buf : List ℕ) (off : ℕ) (bs : List ℕ) (p n : ℕ)
    → (p + n ≤ off) ⊎ (off + length bs ≤ p)
    → read_block (write_block buf off bs) p n ≡ read_block buf p n
unfolding read_block
read-write_other buf off bs p zero h = refl
read-write_other buf off bs p (suc n) h =
    ground (arith, write_block-outside buf off bs p, read-write_other buf off bs (suc p) n)

read-append :
    (buf : List ℕ) (off n k : ℕ)
    → read_block buf off (n + k) ≡ read_block buf off n ++ read_block buf (off + n) k
unfolding read_block
read-append buf off zero k =
    let e : off + 0 ≡ off = omega arith in let e' : 0 + k ≡ k = omega arith in rw (e, e') refl
read-append buf off (suc n) k =
    let e : off + suc n ≡ suc off + n = omega arith in
    let e' : suc n + k ≡ suc (n + k) = omega arith in
    rw (e, e') (ap (λ r. get_or buf off 0 ∷ r) (read-append buf (suc off) n k))

write-append :
    (buf : List ℕ) (off : ℕ) (bs rest : List ℕ)
    → write_block buf off (bs ++ rest) ≡ write_block (write_block buf off bs) (off + length bs) rest
unfolding write_block
write-append buf off [] rest = let e : off + 0 ≡ off = omega arith in rw e refl
write-append buf off (x ∷ bs) rest =
    let e : off + suc (length bs) ≡ suc off + length bs = omega arith in
    rw e (write-append (set buf off x) (suc off) bs rest)

-- A block that is written directly behind a prefix lengthens it, whatever is written after it.
pub read-write_behind :
    (buf : List ℕ) (off : ℕ) (bs rest : List ℕ)
    → off + length bs ≤ length buf
    → read_block (write_block buf off (bs ++ rest)) 0 (off + length bs) ≡ read_block buf 0 off ++ bs
read-write_behind buf off bs rest h =
    let once = write_block buf off bs in
    ap (λ m. read_block m 0 (off + length bs)) (write-append buf off bs rest)
    ∙ read-write_other once (off + length bs) rest 0 (off + length bs) (inl (omega arith))
    ∙ read-append once 0 off (length bs)
    ∙ ap₂ (λ u v. u ++ v) (read-write_other buf off bs 0 off (inl (omega arith)))
        (ap (λ k. read_block once k (length bs)) (zero_add off) ∙ read-write_same buf off bs h)
  where
    zero_add : (n : ℕ) → 0 + n ≡ n
    zero_add n = omega arith
