-- ===== src/Channel/Taken.antt =====
-- `Read` of src/channel.cc takes the first block out of the ring.
use native.Mathlib.Nat.{mod-add-mod}
use tit_co.Base.{
  ℕ, zero, suc, ◌+◌, ◌-◌, ◌*◌, ◌%◌, ◌≡◌, ◌≢◌, refl, sym, ap, ◌∙◌, false, ◌==◌, if◌then◌else◌,
  Option, none, some, List, [], ◌∷◌, ◌++◌, arith,
}
use tit_co.Base.Bytes.{read_block}
use tit_co.Channel.Ring.{window}
use tit_co.Channel.Waiters.{pop_live, live}
use tit_co.Channel.View.{
  Shape, IsValid, contents, pending, pending_room, view_nobody, view, readers, same_offset,
  advance_rx,
}
use tit_co.Channel.{Channel, advance, park, Outcome, done, waits, timer_of, refill, read}

abbrev pub shrunk : Shape → Shape
shrunk g = record g { first = suc g.first % g.cap; count = g.count - 1 }

abbrev pub moved : Channel → Channel
moved c = record c { rx = advance c c.rx }

abbrev pub block_of : Channel → List ℕ
block_of c = read_block c.buf c.rx c.blk_size

-- Which branch `Read` takes.
module _ (g : Shape) (c : Channel) (v : IsValid g c) (co memory : ℕ) where
  pub read_eq_part :
      g.count ≢ 0 → g.count ≢ g.cap → read c co memory ≡ (moved c, done (block_of c) none)
  unfolding read
  read_eq_part n f = ground (arith, same_offset g c v)

  pub read_eq_empty :
      g.count ≡ 0 → read c co memory ≡ (park c co memory [], waits c.fresh (timer_of c.ms))
  unfolding read
  read_eq_empty e = ground (arith, same_offset g c v, v.full, v.first)

  pub read_eq_full :
      g.count ≡ g.cap
      → read c co memory ≡ (
          let (c', ready) = refill (moved c) (pop_live c.ctxs c.wait_queue) in
          (c', done (block_of c) ready))
  unfolding read
  read_eq_full e = ground (arith, same_offset g c v, v.full, v.first)

-- The coroutine that a read makes ready: the writer that has waited longest.
abbrev pub woken : Shape → Channel → Option ℕ
woken g c =
    if g.count == g.cap
    then elim (live c.ctxs c.wait_queue) [ [] ↦ none | w ∷ _ ↦ some (c.ctxs w).co ]
    else none

-- What a read has done: it returned the first block, and no reader waits, or it waits, behind the readers before it, at
-- a channel that is empty and stays so.
pub data Reads (g : Shape) (c : Channel) (g' : Shape) (c' : Channel) (o : Outcome) : Type 0 where
  took :
      (block : List ℕ) (rest : List (List ℕ))
      → view g c ≡ block ∷ rest
      → view g' c' ≡ rest
      → readers g' c' ≡ []
      → o ≡ done block (woken g c)
      → Reads g c g' c' o
  waited :
      view g c ≡ []
      → view g' c' ≡ []
      → readers g' c' ≡ readers g c ++ c.fresh ∷ []
      → o ≡ waits c.fresh (timer_of c.ms)
      → Reads g c g' c' o

abbrev pub Result : Shape → Channel → Channel × Outcome → Shape → Type 0
Result g c r g' = IsValid g' r.0 × Reads g c g' r.0 r.1

module _ (g : Shape) (c : Channel) (v : IsValid g c) where
  pub window-split :
      (n : ℕ)
      → n ≢ 0
      → window c.blk_size g.cap c.buf g.first n
        ≡ read_block c.buf (g.first * c.blk_size) c.blk_size
          ∷ window c.blk_size g.cap c.buf (suc g.first % g.cap) (n - 1)
  window-split zero h = absurd (h refl)
  window-split (suc n) h =
      ap (λ (k : ℕ). window c.blk_size g.cap c.buf g.first (suc k)) (omega arith)

  pub contents-split :
      g.count ≢ 0
      → contents g c
        ≡ block_of c ∷ window c.blk_size g.cap c.buf (suc g.first % g.cap) (g.count - 1)
  contents-split h =
      window-split g.count h
      ∙ ap
          (λ (off : ℕ).
            read_block c.buf off c.blk_size
            ∷ window c.blk_size g.cap c.buf (suc g.first % g.cap) (g.count - 1))
          (sym v.rx)

  -- Reading one block leaves the write position where it was.
  pub wx_stays :
      g.count ≢ 0 → (suc g.first % g.cap + (g.count - 1)) % g.cap ≡ (g.first + g.count) % g.cap
  wx_stays h = ground (arith, mod-add-mod (suc g.first) g.cap (g.count - 1))

  -- The channel after a read that leaves a block fewer.
  unfoldable pub left : List ℕ → Channel
  left q = record (moved c) { full = false; wait_queue = q }

  pub left-IsValid : g.count ≢ 0 → IsValid (shrunk g) (left [])
  unfolding left
  left-IsValid h = record {
    blk = v.blk;
    size = v.size;
    fits = v.fits;
    room = v.room;
    first = let p = v.first in omega arith;
    few = omega (arith, v.few);
    rx = advance_rx g c v;
    wx = v.wx ∙ ap (λ (t : ℕ). t * c.blk_size) (sym (wx_stays h));
    full = ground (arith, v.few);
    queue = omega arith;
    idle = λ p q. refl;
    sized = λ p. tt;
  }

  pub left-view : g.count ≢ 0 → pending g c ≡ [] → view g c ≡ block_of c ∷ view (shrunk g) (left [])
  unfolding left
  left-view h p =
      view_nobody g c p
      ∙ contents-split h
      ∙ ap (λ l. block_of c ∷ l)
          (sym (
            view_nobody (shrunk g) (left [])
              (pending_room (shrunk g) (left []) (omega (arith, v.few)))))

  pub left-readers : readers (shrunk g) (left []) ≡ []
  unfolding left live
  left-readers = ground arith

  pub read_part :
      (co memory : ℕ)
      → g.count ≢ 0
      → g.count ≢ g.cap
      → (g' : Shape) × Result g c (read c co memory) g'
  unfolding left
  read_part co memory h f =
      let nobody : c.wait_queue ≡ [] = v.idle (omega arith) (omega (arith, v.few)) in
      let same : moved c ≡ left [] = ground (arith, v.full) in
      rw (read_eq_part g c v co memory h f, same)
        (
          shrunk g,
          (
            left-IsValid h,
            took (block_of c) (view (shrunk g) (left [])) (left-view h (pending_room g c f)) refl
                left-readers (ground arith),
          ),
        )
