-- ===== src/Channel/Writes.antt =====
-- `Write` of src/channel.cc appends its block to the queue that a channel stands for, whether it
-- returns or waits; or it serves the reader that has waited longest.
use tit_co.Base.{
  ℕ, suc, ◌≡◌, ◌≢◌, refl, sym, ap, ◌∙◌, ◌==◌, if◌then◌else◌, Option, none, some, List, [], ◌∷◌,
  ◌++◌, append_assoc, length, ℕ_discrete, arith,
}
use tit_co.CoState.{k_init, k_ready}
use tit_co.Channel.Waiters.{
  WaitCtx, update, update_self, pop_live, live, Within, Within-lo, Within-append, live-below,
  parked-cells, parked-Sized, Popped, pop_live-Popped,
}
use tit_co.Channel.View.{
  Shape, IsValid, requeue-IsValid, contents, pending, pending_nobody, pending_room, view_nobody,
  view, readers, same_offset,
}
use tit_co.Channel.{Channel, park, Outcome, done, waits, timer_of, store, hand_over, write}
use tit_co.Channel.Store.{grown, store-IsValid, store-contents}

-- What a write has done: no reader waited, the block stands behind all others, and the writer waits
-- just if the buffer was full; or the block lies
-- in the cell of the reader `w` that waited longest, whose coroutine is made ready.
pub data Wrote (g : Shape) (c : Channel) (block : List ℕ) (g' : Shape) (c' : Channel) (o : Outcome)
    : Type 0 where
  queued :
      readers g c ≡ []
      → view g' c' ≡ view g c ++ block ∷ []
      → o ≡ (if g.count == g.cap then waits c.fresh (timer_of c.ms) else done [] none)
      → Wrote g c block g' c' o
  served :
      (w : ℕ) (rest : List ℕ)
      → readers g c ≡ w ∷ rest
      → readers g' c' ≡ rest
      → view g c ≡ []
      → view g' c' ≡ []
      → (c'.ctxs w).cell ≡ block
      → (c'.ctxs w).state ≡ k_ready
      → o ≡ done [] (some (c.ctxs w).co)
      → Wrote g c block g' c' o

-- Which branch `Write` takes.
module _ (g : Shape) (c : Channel) (v : IsValid g c) (co memory : ℕ) (block : List ℕ) where
  write_eq_room :
      g.count ≢ 0 → g.count ≢ g.cap → write c co memory block ≡ (store c block, done [] none)
  unfolding write
  write_eq_room n f = ground (arith, same_offset g c v)

  write_eq_empty :
      g.count ≡ 0
      → write c co memory block ≡ (
          let (c', ready) = hand_over c block (pop_live c.ctxs c.wait_queue) in (c', done [] ready))
  unfolding write
  write_eq_empty e = ground (arith, same_offset g c v, v.full, v.first)

  write_eq_full :
      g.count ≡ g.cap
      → write c co memory block ≡ (park c co memory block, waits c.fresh (timer_of c.ms))
  unfolding write
  write_eq_full e = ground (arith, same_offset g c v, v.full)

abbrev Result : Shape → Channel → List ℕ → Channel × Outcome → Shape → Type 0
Result g c block r g' = IsValid g' r.0 × Wrote g c block g' r.0 r.1

module _ (g : Shape) (c : Channel) (v : IsValid g c) (block : List ℕ)
    (len : length block ≡ c.blk_size) where
  -- The view after `store` on a channel where nobody waits.
  store-view :
      g.count ≢ g.cap
      → c.wait_queue ≡ []
      → view (grown g) (store c block) ≡ contents g c ++ block ∷ []
  unfolding store
  store-view ne e =
      view_nobody (grown g) (store c block) (pending_nobody (grown g) (store c block) e)
      ∙ store-contents g c v block len ne

  write_room :
      (co memory : ℕ)
      → g.count ≢ 0
      → g.count ≢ g.cap
      → (g' : Shape) × Result g c block (write c co memory block) g'
  write_room co memory n f =
      let nobody = v.idle (omega arith) (omega (arith, v.few)) in
      rw (write_eq_room g c v co memory block n f) (
        grown g,
        (
          store-IsValid g c v block len f nobody,
          queued (ground arith)
              (store-view f nobody
                ∙ ap (λ l. l ++ block ∷ []) (sym (view_nobody g c (pending_nobody g c nobody))))
              (ground arith),
        ),
      )

-- On an empty channel: the waiting readers that have given up are dropped.
abbrev cleared : Channel → Channel
cleared c = record c { wait_queue = [] }

cleared-IsValid : (g : Shape) (c : Channel) → IsValid g c → IsValid g (cleared c)
cleared-IsValid g c v =
    requeue-IsValid g c [] c.ctxs c.fresh v (omega arith) (λ p q. refl) (λ p. tt)

module _ (g : Shape) (c : Channel) (v : IsValid g c) (block : List ℕ)
    (len : length block ≡ c.blk_size) (e : g.count ≡ 0) where
  write_nobody :
      live c.ctxs c.wait_queue ≡ []
      → IsValid (grown g) (store (cleared c) block)
        × (view (grown g) (store (cleared c) block) ≡ view g c ++ block ∷ [])
  write_nobody n =
      let f : g.count ≢ g.cap = λ q. (let p = v.first in omega arith) in
      let w = cleared-IsValid g c v in
      (
        store-IsValid g (cleared c) w block len f refl,
        store-view g (cleared c) w block len f refl
            ∙ ap (λ l. l ++ block ∷ []) (sym (view_nobody g c (pending_room g c f))),
      )

  served_ctx : ℕ → WaitCtx
  served_ctx w = record (c.ctxs w) { state = k_ready; cell = block }

  served_channel : ℕ → List ℕ → Channel
  served_channel w rest = record c { wait_queue = rest; ctxs = update c.ctxs w (served_ctx w) }

  served-IsValid :
      (w : ℕ) (rest : List ℕ) → Within (suc w) c.fresh rest → IsValid g (served_channel w rest)
  unfolding served_channel
  served-IsValid w rest k =
      requeue-IsValid g c rest (update c.ctxs w (served_ctx w)) c.fresh v
        (Within-lo (suc w) 0 c.fresh rest (omega arith) k) (λ p q. absurd (omega arith))
        (λ p. absurd (let q = v.first in omega arith))

  write_served :
      (w : ℕ) (rest : List ℕ)
      → Popped c.ctxs 0 c.fresh c.wait_queue (some (w, rest))
      → IsValid g (served_channel w rest)
        × Wrote g c block g (served_channel w rest) (done [] (some (c.ctxs w).co))
  unfolding served_channel served_ctx
  write_served w rest p = (
    served-IsValid w rest p.3,
    served w (live c.ctxs rest) (ground arith)
        (ground
          (arith, (live-below c.ctxs w (served_ctx w) (suc w) c.fresh rest p.3 (omega arith)).0))
        (ground (arith, v.first)) (ground (arith, v.first))
        (ap (λ (x : WaitCtx). x.cell) (update_self c.ctxs w (served_ctx w)))
        (ap (λ (x : WaitCtx). x.state) (update_self c.ctxs w (served_ctx w))) refl,
  )

  write_empty : (co memory : ℕ) → (g' : Shape) × Result g c block (write c co memory block) g'
  unfolding hand_over served_channel served_ctx
  write_empty co memory = rw (write_eq_empty g c v co memory block e) (
      by_pop (pop_live c.ctxs c.wait_queue) (pop_live-Popped c.ctxs 0 c.fresh c.wait_queue v.queue))
    where
      handed : Option (ℕ × List ℕ) → Channel × Outcome
      handed r = let (c', ready) = hand_over c block r in (c', done [] ready)

      by_pop :
          (r : Option (ℕ × List ℕ))
          → Popped c.ctxs 0 c.fresh c.wait_queue r
          → (g' : Shape) × Result g c block (handed r) g'
      by_pop none p =
          let (valid, seen) = write_nobody p in
          (grown g, (valid, queued (ground arith) seen (ground (arith, v.first))))
      by_pop (some (w, rest)) p = (g, write_served w rest p)

-- On a full channel the writer waits, and its block with it.
module _ (g : Shape) (c : Channel) (v : IsValid g c) (block : List ℕ)
    (len : length block ≡ c.blk_size) (e : g.count ≡ g.cap) (co : ℕ) where
  parked_ctx : WaitCtx
  parked_ctx = record { co = co; state = k_init; cell = block }

  write_full : (g' : Shape) × Result g c block (write c co k_init block) g'
  unfolding park parked_ctx
  write_full =
      rw (write_eq_full g c v co k_init block e)
        (g, (valid, queued (ground (arith, v.first)) seen (ground arith)))
    where
      f : ℕ → WaitCtx
      f = update c.ctxs c.fresh parked_ctx

      valid : IsValid g (park c co k_init block)
      valid =
          requeue-IsValid g c (c.wait_queue ++ c.fresh ∷ []) f (suc c.fresh) v
            (Within-append 0 c.fresh c.wait_queue v.queue) (λ p q. absurd (omega arith))
            (λ p.
              parked-Sized c.ctxs parked_ctx c.blk_size 0 c.fresh c.wait_queue v.queue (v.sized p)
                len)

      seen : view g (park c co k_init block) ≡ view g c ++ block ∷ []
      seen =
          ap (λ p. contents g c ++ p)
            (ground (arith, parked-cells c.ctxs parked_ctx 0 c.fresh c.wait_queue v.queue refl))
          ∙ sym (append_assoc (contents g c) (pending g c) (block ∷ []))

-- On a valid channel `Write` of a block leaves a valid channel. Its block then stands behind all
-- those that the channel holds or that waiting writers bring, and the writer waits just if the
-- buffer was full; unless readers wait: then the one that has waited longest gets the block and is made ready, the
-- others wait on, and the channel stays empty. (A wait context is taken to begin in the initial
-- state.)
pub write_refines :
    (g : Shape) (c : Channel) (co : ℕ) (block : List ℕ)
    → IsValid g c
    → length block ≡ c.blk_size
    → (g' : Shape) × IsValid g' (write c co k_init block).0
      × Wrote g c block g' (write c co k_init block).0 (write c co k_init block).1
write_refines g c co block v len = elim (ℕ_discrete g.count 0) [
  | yes e ↦ flat (write_empty g c v block len e co k_init)
  | no n ↦ elim (ℕ_discrete g.count g.cap) [
    | yes e ↦ flat (write_full g c v block len e co)
    | no f ↦ flat (write_room g c v block len co k_init n f)
  ]
]
  where
    flat :
        (g' : Shape) × Result g c block (write c co k_init block) g'
        → (g' : Shape) × IsValid g' (write c co k_init block).0
          × Wrote g c block g' (write c co k_init block).0 (write c co k_init block).1
    flat (g', (valid, wrote)) = (g', valid, wrote)
