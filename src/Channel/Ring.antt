-- ===== src/Channel/Ring.antt =====
-- The ring of blocks in the memory of a channel: `rx_` and `wx_` are byte offsets of blocks.
use native.Mathlib.Nat.{mod-add-mod, mod-eq_of_lt, mod-eq-sub-mod, add-zero}
use tit_co.Base.{
  ℕ, zero, suc, ◌+◌, ◌-◌, ◌*◌, ◌%◌, ◌≤◌, ◌<◌, ◌≡◌, ◌≢◌, refl, sym, ap, ap₂, ◌∙◌, ◌==◌,
  if◌then◌else◌, List, [], ◌∷◌, ◌++◌, length, dec_lt, ◌⊎◌, inl, inr, arith,
}
use tit_co.Base.Word.{u32}
use tit_co.Base.Bytes.{read_block, write_block, read-write_same, read-write_other}

pub le_times : (a b c : ℕ) → a ≤ b → a * c ≤ b * c
le_times a b c h = grind arith

-- The offset that follows a block's: `rx_ += blk_size_; if (rx_ == buf_size_) rx_ = 0;`.
pub next_offset :
    (cap blk i : ℕ)
    → 0 < blk
    → i < cap
    → cap * blk < u32
    → (let y = (i * blk + blk) % u32 in if y == cap * blk then 0 else y) ≡ (suc i % cap) * blk
next_offset cap blk i b h s = elim (dec_lt (suc i) cap) [
  | yes p ↦ rw (mod-eq_of_lt p) (ground (arith, le_times (suc (suc i)) cap blk p))
  | no p ↦
      let e : suc i ≡ cap = omega arith in
      rw (← e) (
        ground
          (arith, ap (λ (t : ℕ). t * blk) e, mod-eq-sub-mod {n = suc i} {m = suc i} (omega arith)))
]

block-apart : (blk i j : ℕ) → i ≢ j → (i * blk + blk ≤ j * blk) ⊎ (j * blk + blk ≤ i * blk)
block-apart blk i j h = elim (dec_lt i j) [
  | yes p ↦ inl (omega (arith, le_times (suc i) j blk p))
  | no p ↦ inr (omega (arith, le_times (suc j) i blk (omega arith)))
]

module _ (blk cap : ℕ) where
  -- The `n` blocks from the block `i` on, going round at `cap`.
  abbrev pub window : List ℕ → ℕ → ℕ → List (List ℕ)
  window buf i zero = []
  window buf i (suc n) = read_block buf (i * blk) blk ∷ window buf (suc i % cap) n

  -- A window whose block is read leaves the one behind it.
  pub window-length : (buf : List ℕ) (i n : ℕ) → length (window buf i n) ≡ n
  window-length buf i zero = refl
  window-length buf i (suc n) = ap suc (window-length buf (suc i % cap) n)

  pub in_range : (i : ℕ) → i < cap → i * blk + blk ≤ cap * blk
  in_range i h = omega (arith, le_times (suc i) cap blk h)

  -- Fewer than `cap` steps round the ring do not come back to the start.
  pub turn-ne : (i n : ℕ) → i < cap → suc n < cap → (i + suc n) % cap ≢ i
  turn-ne i n below few same = elim (dec_lt (i + suc n) cap) [
    | yes inner ↦ omega (arith, same, mod-eq_of_lt inner)
    | no wraps ↦
        let once = mod-eq-sub-mod {n = i + suc n} {m = cap} (omega arith) in
        let rest = mod-eq_of_lt {n = i + suc n - cap} {m = cap} (omega arith) in
        omega (arith, same, once, rest)
  ]

  -- A block that is written just past a window extends it, as far as there is room.
  pub window-write :
      (buf : List ℕ) (block : List ℕ) (n i j : ℕ)
      → cap * blk ≤ length buf
      → length block ≡ blk
      → i < cap
      → n < cap
      → j ≡ (i + n) % cap
      → window (write_block buf (j * blk) block) i (suc n) ≡ window buf i n ++ block ∷ []
  window-write buf block zero i j room len hi hn e =
      let at : j ≡ i = e ∙ rw add-zero (mod-eq_of_lt hi) in
      rw at (
        ap (λ b. b ∷ [])
          (rw len at (read-write_same buf (i * blk) block (omega (arith, in_range i hi)))))
  window-write buf block (suc n) i j room len hi hn e =
      ap₂ ◌∷◌
        (read-write_other buf (j * blk) block (i * blk) blk
          (omega (arith, block-apart blk i j (λ q. turn-ne i n hi hn (sym e ∙ sym q)))))
        (window-write buf block n (suc i % cap) j room len (omega arith) (omega arith) (e ∙ shift))
    where
      shift : (i + suc n) % cap ≡ (suc i % cap + n) % cap
      shift = rw mod-add-mod (ap (λ k. k % cap) (omega arith))
