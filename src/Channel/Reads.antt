-- ===== src/Channel/Reads.antt =====
-- `Read` of src/channel.cc takes the first block of the queue that a channel stands for, lets the
-- longest waiting writer's block into the buffer, and waits if there is none.
use native.Mathlib.Nat.{mod-add-mod}
use tit_co.Base.{
  ℕ, suc, ◌+◌, ◌-◌, ◌*◌, ◌%◌, ◌≡◌, ◌≢◌, refl, sym, subst, ap, ap₂, ◌∙◌, Option, none, some, List,
  [], ◌∷◌, ◌++◌, append_assoc, length, ℕ_discrete, arith,
}
use tit_co.CoState.{k_init, k_ready}
use tit_co.Base.Bytes.{write_block, length-write_block}
use tit_co.Channel.Ring.{window, window-write}
use tit_co.Channel.Waiters.{
  WaitCtx, update, pop_live, live, cells, Within, Within-lo, Within-append, live-below, parked-live,
  Sized, Sized-update, pop_live-Sized, Popped, pop_live-Popped,
}
use tit_co.Channel.View.{
  Shape, IsValid, requeue-IsValid, contents, pending, view, readers, advance_rx, advance_wx,
}
use tit_co.Channel.{Channel, advance, park, Outcome, done, refill, read}
use tit_co.Channel.Taken.{
  shrunk, moved, block_of, read_eq_empty, read_eq_full, Reads, took, waited, Result, contents-split,
  wx_stays, left, left-readers, left-IsValid, left-view, read_part,
}

-- A full channel.
module _ (g : Shape) (c : Channel) (v : IsValid g c) (e : g.count ≡ g.cap) where
  some_block : g.count ≢ 0
  some_block h = let p = v.first in omega arith

  read_full_nobody :
      live c.ctxs c.wait_queue ≡ [] → Result g c (left g c v [], done (block_of c) none) (shrunk g)
  unfolding left
  read_full_nobody n = (
    left-IsValid g c v some_block,
    took (block_of c) (view (shrunk g) (left g c v [])) (left-view g c v some_block (ground arith))
        refl (left-readers g c v) (ground arith),
  )

  -- The block of the first waiting writer goes where the read one was.
  refilled_shape : Shape
  refilled_shape = record g { first = suc g.first % g.cap }

  refilled : ℕ → List ℕ → Channel
  refilled w rest = record (moved c) {
    buf = write_block c.buf c.wx (c.ctxs w).cell;
    wx = advance c c.wx;
    wait_queue = rest;
    ctxs = update c.ctxs w (record (c.ctxs w) { state = k_ready });
  }

  refilled-IsValid :
      (w : ℕ) (rest : List ℕ)
      → Within (suc w) c.fresh rest
      → Sized c.blk_size c.ctxs rest
      → IsValid refilled_shape (refilled w rest)
  unfolding refilled refilled_shape
  refilled-IsValid w rest k s = record {
    blk = v.blk;
    size = v.size;
    fits = v.fits;
    room = omega (arith, v.room, length-write_block c.buf c.wx (c.ctxs w).cell);
    first = let p = v.first in omega arith;
    few = v.few;
    rx = advance_rx g c v;
    wx = advance_wx g c v ∙ ap (λ (t : ℕ). t * c.blk_size) turn;
    full = v.full;
    queue = Within-lo (suc w) 0 c.fresh rest (omega arith) k;
    idle = λ p q. absurd (omega arith);
    sized = λ p.
        Sized-update c.ctxs w (record (c.ctxs w) { state = k_ready }) c.blk_size (suc w) c.fresh
          rest k (omega arith) s;
  }
    where
      turn : (g.first + suc g.count) % g.cap ≡ (suc g.first % g.cap + g.count) % g.cap
      turn = ground (arith, mod-add-mod (suc g.first) g.cap g.count)

  count_suc : g.count ≡ suc (g.count - 1)
  count_suc = let p = v.first in omega arith

  refilled-contents :
      (w : ℕ) (rest : List ℕ)
      → length (c.ctxs w).cell ≡ c.blk_size
      → contents refilled_shape (refilled w rest)
        ≡ window c.blk_size g.cap c.buf (suc g.first % g.cap) (g.count - 1) ++ (c.ctxs w).cell ∷ []
  unfolding refilled refilled_shape
  refilled-contents w rest len =
      ap
        (λ (n : ℕ).
          window c.blk_size g.cap (write_block c.buf c.wx (c.ctxs w).cell) (suc g.first % g.cap) n)
        count_suc
      ∙ subst
          (λ (off : ℕ).
            window c.blk_size g.cap (write_block c.buf off (c.ctxs w).cell) (suc g.first % g.cap)
              (suc (g.count - 1))
            ≡ window c.blk_size g.cap c.buf (suc g.first % g.cap) (g.count - 1)
              ++ (c.ctxs w).cell ∷ [])
          (sym v.wx)
          (window-write c.blk_size g.cap c.buf (c.ctxs w).cell (g.count - 1) (suc g.first % g.cap)
            ((g.first + g.count) % g.cap) v.room len (let p = v.first in omega arith)
            (let p = v.first in omega arith) (sym (wx_stays g c v some_block)))

  -- The blocks of the writers behind the first.
  behind : List ℕ → List (List ℕ)
  behind rest = cells c.ctxs (live c.ctxs rest)

  refilled-pending :
      (w : ℕ) (rest : List ℕ)
      → Within (suc w) c.fresh rest
      → pending refilled_shape (refilled w rest) ≡ behind rest
  unfolding refilled refilled_shape behind
  refilled-pending w rest k =
      let x : WaitCtx = record (c.ctxs w) { state = k_ready } in
      let same = live-below c.ctxs w x (suc w) c.fresh rest k (omega arith) in
      ground (arith, ap (cells (update c.ctxs w x)) same.0, same.1)

  refilled-view :
      (w : ℕ) (rest : List ℕ)
      → Popped c.ctxs 0 c.fresh c.wait_queue (some (w, rest))
      → length (c.ctxs w).cell ≡ c.blk_size
      → view g c ≡ block_of c ∷ view refilled_shape (refilled w rest)
  unfolding behind
  refilled-view w rest p len =
      let b = block_of c in
      let cell = (c.ctxs w).cell in
      let kept = window c.blk_size g.cap c.buf (suc g.first % g.cap) (g.count - 1) in
      let first_waits : pending g c ≡ cell ∷ behind rest = ground (arith, ap (cells c.ctxs) p.0) in
      ap₂ ◌++◌ (contents-split g c v some_block) first_waits
      ∙ ap (λ l. b ∷ l)
          (sym (append_assoc kept (cell ∷ []) (behind rest))
            ∙ ap₂ ◌++◌ (sym (refilled-contents w rest len)) (sym (refilled-pending w rest p.3)))

  refilled-readers : (w : ℕ) (rest : List ℕ) → readers refilled_shape (refilled w rest) ≡ []
  unfolding refilled_shape
  refilled-readers w rest = ground (arith, some_block)

  read_full_writer :
      (w : ℕ) (rest : List ℕ)
      → Popped c.ctxs 0 c.fresh c.wait_queue (some (w, rest))
      → Sized c.blk_size c.ctxs rest
      → length (c.ctxs w).cell ≡ c.blk_size
      → Result g c (refilled w rest, done (block_of c) (some (c.ctxs w).co)) refilled_shape
  read_full_writer w rest p s len = (
    refilled-IsValid w rest p.3 s,
    took (block_of c) (view refilled_shape (refilled w rest)) (refilled-view w rest p len) refl
        (refilled-readers w rest) (ground arith),
  )

  read_full : (co memory : ℕ) → (g' : Shape) × Result g c (read c co memory) g'
  unfolding refill left refilled
  read_full co memory = rw (read_eq_full g c v co memory e) (
      by_pop (pop_live c.ctxs c.wait_queue) refl
        (pop_live-Popped c.ctxs 0 c.fresh c.wait_queue v.queue))
    where
      after : Option (ℕ × List ℕ) → Channel × Outcome
      after r = let (c', ready) = refill (moved c) r in (c', done (block_of c) ready)

      by_pop :
          (r : Option (ℕ × List ℕ))
          → pop_live c.ctxs c.wait_queue ≡ r
          → Popped c.ctxs 0 c.fresh c.wait_queue r
          → (g' : Shape) × Result g c (after r) g'
      by_pop none q p = (shrunk g, read_full_nobody p)
      by_pop (some (w, rest)) q p =
          let sizes = pop_live-Sized c.ctxs c.blk_size c.wait_queue (v.sized e) w rest q in
          (refilled_shape, read_full_writer w rest p sizes.0 sizes.1)

-- An empty channel.
module _ (g : Shape) (c : Channel) (v : IsValid g c) (e : g.count ≡ 0) (co : ℕ) where
  reader_ctx : WaitCtx
  reader_ctx = record { co = co; state = k_init; cell = [] }

  read_empty : (g' : Shape) × Result g c (read c co k_init) g'
  unfolding park reader_ctx
  read_empty =
      rw (read_eq_empty g c v co k_init e)
        (g, (valid, waited (ground (arith, v.first)) (ground (arith, v.first)) behind_others refl))
    where
      valid : IsValid g (park c co k_init [])
      valid =
          requeue-IsValid g c (c.wait_queue ++ c.fresh ∷ []) (update c.ctxs c.fresh reader_ctx)
            (suc c.fresh) v (Within-append 0 c.fresh c.wait_queue v.queue)
            (λ p q. absurd (omega arith)) (λ p. absurd (let q = v.first in omega arith))

      behind_others : readers g (park c co k_init []) ≡ readers g c ++ c.fresh ∷ []
      behind_others =
          ground (arith, parked-live c.ctxs reader_ctx 0 c.fresh c.wait_queue v.queue refl)

-- On a valid channel `Read` leaves a valid channel. If the channel holds a block or a writer waits,
-- it returns the first block, makes the longest waiting writer ready if the buffer was full, and
-- leaves the other blocks in their order, that writer's among them, and no reader that waits;
-- otherwise it waits behind the readers that wait already. (A wait context is taken to begin in the
-- initial state.)
pub read_refines :
    (g : Shape) (c : Channel) (co : ℕ)
    → IsValid g c
    → (g' : Shape) × IsValid g' (read c co k_init).0
      × Reads g c g' (read c co k_init).0 (read c co k_init).1
read_refines g c co v = elim (ℕ_discrete g.count 0) [
  | yes e ↦ flat (read_empty g c v e co)
  | no n ↦ elim (ℕ_discrete g.count g.cap) [
    | yes e ↦ flat (read_full g c v e co k_init)
    | no f ↦ flat (read_part g c v co k_init n f)
  ]
]
  where
    flat :
        (g' : Shape) × Result g c (read c co k_init) g'
        → (g' : Shape) × IsValid g' (read c co k_init).0
          × Reads g c g' (read c co k_init).0 (read c co k_init).1
    flat (g', (valid, r)) = (g', valid, r)
