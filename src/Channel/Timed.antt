-- ===== src/Channel/Timed.antt =====
-- A channel of src/channel.cc over all calls of its coroutines, while waits may run out of time.
use mathlib.Core.List.Sublist
use mathlib.Core.List.{Sublist}
use tit_co.Base.{
  ℕ, ◌*◌, ◌<◌, ◌≡◌, ◌⊎◌, refl, sym, ap, subst, ◌∙◌, Option, List, [], ◌∷◌, ◌++◌, length, All, inl,
  inr, ℕ_discrete, arith,
}
use tit_co.Base.Word.{u32}
use tit_co.CoState.{k_init}
use tit_co.Channel.Waiters.{update, live, cells, Sized}
use tit_co.Channel.View.{
  Shape, IsValid, requeue-IsValid, contents, pending, view, readers, create-IsValid,
}
use tit_co.Channel.Writes.{write_refines}
use tit_co.Channel.Reads.{read_refines}
use tit_co.Channel.{Channel, create, waits}
use tit_co.Channel.History.{writes, reads, History, step, Frame, write-Frame, read-Frame}
use tit_co.Channel.Answers.{readers_or, readers-All}
use tit_co.Channel.Fifo.{Fits, begun}
use tit_co.Channel.Expiry.{
  without, expire, expire-cases, expire-Frame, gave_up, live-without, cells-same, cells-without,
  Event, calls, expires, occurs, passes, returned,
}
use tit_co.Channel.Log.{IsExpired, Log, Log-Frame, Log-expired, Log-returned}
use tit_co.Channel.Ordered.{IsOrdered, written-IsOrdered, read-IsOrdered}

-- The wait at `w` ends.
module _ (g : Shape) (h : History) (f : IsOrdered g h) (w : ℕ) where
  abbrev before : Channel
  before = h.channel

  abbrev gone : Channel
  gone = record before { ctxs = update before.ctxs w (gave_up before.ctxs w) }

  gone-Sized :
      (q : List ℕ) → Sized before.blk_size before.ctxs q → Sized before.blk_size gone.ctxs q
  gone-Sized [] s = tt
  gone-Sized (v ∷ q) (s, ss) = (ground (arith, s), gone-Sized q ss)

  gone-IsValid : IsValid g gone
  gone-IsValid =
      requeue-IsValid g before before.wait_queue gone.ctxs before.fresh f.valid f.valid.queue
        f.valid.idle (λ p. gone-Sized before.wait_queue (f.valid.sized p))

  gone-pending : Sublist (pending g gone) (pending g before)
  gone-pending =
      let queue = before.wait_queue in
      elim (ℕ_discrete g.count g.cap) [
        | yes e ↦
            let fewer : pending g gone ≡ cells before.ctxs (without w (live before.ctxs queue)) =
              ground (arith, e)
              ∙ ap (cells gone.ctxs) (live-without before.ctxs w queue)
              ∙ cells-same before.ctxs w (without w (live before.ctxs queue)) in
            let all : pending g before ≡ cells before.ctxs (live before.ctxs queue) =
              ground (arith, e) in
            subst (Sublist (pending g gone)) (sym all) (
              subst (λ l. Sublist l (cells before.ctxs (live before.ctxs queue))) (sym fewer)
                (cells-without before.ctxs w (live before.ctxs queue)))
        | no n ↦
            subst (λ l. Sublist l (pending g before)) (ground (arith, n))
              (Sublist.refl (pending g before))
      ]

  gone-readers : readers g gone ≡ without w (readers g before)
  gone-readers = elim (ℕ_discrete g.count 0) [
    | yes e ↦ ground (arith, e, live-without before.ctxs w before.wait_queue)
    | no n ↦ ground (arith, n)
  ]

  readers-IsExpired :
      (ws : List ℕ)
      → All (λ v. (v < before.fresh) × ((before.ctxs v).state ≡ k_init)) ws
      → All (λ v. v ≡ w → (timer : Option ℕ) → IsExpired gone (waits v timer)) ws
  readers-IsExpired [] a = tt
  readers-IsExpired (v ∷ ws) (a, as_) =
      (λ e timer. ground (arith, a.0, e), readers-IsExpired ws as_)

  gone-IsOrdered : expire before w ≡ gone → IsOrdered g (record h { channel = gone })
  gone-IsOrdered e =
      let frame = subst (Frame before) e (expire-Frame before w) in
      record {
        valid = gone-IsValid;
        given = f.given;
        log = subst (Log gone h.reads f.given) (sym gone-readers) (
            Log-expired gone w h.reads f.given (readers g before)
              (readers-IsExpired (readers g before) (readers-All g before f.valid))
              (Log-Frame before gone frame h.reads f.given (readers g before) f.log));
        part =
            Sublist.trans
              (Sublist.append (Sublist.refl f.given)
                (Sublist.append (Sublist.refl (contents g before)) gone-pending))
              f.part;
      }

  expired-IsOrdered : IsOrdered g (occurs h (expires w))
  unfolding occurs
  expired-IsOrdered = elim (expire-cases before w) [
    | inl e ↦ subst (λ x. IsOrdered g (record h { channel = x })) (sym e) f
    | inr (i, e) ↦ subst (λ x. IsOrdered g (record h { channel = x })) (sym e) (gone-IsOrdered e)
  ]

-- What `occurs-IsOrdered` states of one event.
abbrev Kept : History → Event → Type 0
Kept h e =
    (g' : Shape) × IsOrdered g' (occurs h e) × ((occurs h e).channel.blk_size ≡ h.channel.blk_size)

abbrev pub Suits : ℕ → Event → Type 0
Suits blk (calls op) = Fits blk op
Suits blk (expires w) = Unit

occurs-IsOrdered :
    (g : Shape) (h : History) (e : Event) → IsOrdered g h → Suits h.channel.blk_size e → Kept h e
unfolding occurs step
occurs-IsOrdered g h (calls (writes co memory block)) f (init, fits) =
    let (g', v, w) = write_refines g h.channel co block f.valid fits in
    subst (λ m. Kept h (calls (writes co m block))) (sym init)
      (g', written-IsOrdered g h f block co g' v w, (write-Frame h.channel co block).blk)
occurs-IsOrdered g h (calls (reads co memory)) f init =
    let (g', v, r) = read_refines g h.channel co f.valid in
    subst (λ m. Kept h (calls (reads co m))) (sym init)
      (g', read-IsOrdered g h f co g' v r, (read-Frame h.channel co).blk)
occurs-IsOrdered g h (expires w) f fits =
    (g, expired-IsOrdered g h f w, (expire-Frame h.channel w).blk)

passes-IsOrdered :
    (g : Shape) (h : History) (es : List Event)
    → IsOrdered g h
    → All (Suits h.channel.blk_size) es
    → (g' : Shape) × IsOrdered g' (passes h es)
unfolding passes
passes-IsOrdered g h [] f fits = (g, f)
passes-IsOrdered g h (e ∷ es) f (fit, fits) =
    let (g', f', same) = occurs-IsOrdered g h e f fit in
    passes-IsOrdered g' (occurs h e) es f' (subst (λ blk. All (Suits blk) es) (sym same) fits)

-- However coroutines write and read blocks of the size of a new channel, of whatever capacity, and
-- whichever of their waits run out of time at whatever moments: the blocks that the calls of `Read`
-- have returned, in the order of these calls, and behind them those that the channel holds or that
-- waiting writers bring, were all written, each once and in this order; and while a reader waits, the
-- channel holds none. (The memory of each wait context is taken to hold the initial state, which its
-- constructor does not set, and a reader that has been given its block to be resumed in time.)
pub ordered_answers :
    (cap blk ms : ℕ) (memory : List ℕ) (es : List Event)
    → 0 < cap
    → 0 < blk
    → cap * blk < u32
    → length memory ≡ cap * blk
    → All (Suits blk) es
    → let h = passes (begun cap blk ms memory) es in
      (g : Shape) × IsValid g h.channel
      × Sublist (returned h.channel h.reads ++ view g h.channel) h.written
      × ((readers g h.channel ≡ []) ⊎ (view g h.channel ≡ []))
unfolding create live
ordered_answers size blk ms memory es hc hb hs hm fits =
    let (valid, empty) = create-IsValid size blk ms memory hc hb hs hm in
    let start : IsOrdered (record { cap = size; first = 0; count = 0 }) (begun size blk ms memory) =
      record {
        valid = valid;
        given = [];
        log = (refl, refl);
        part = subst (λ l. Sublist l []) (sym empty) (Sublist.refl []);
      } in
    let (g, f) = passes-IsOrdered _ (begun size blk ms memory) es start fits in
    let h = passes (begun size blk ms memory) es in
    let all =
      Log-returned h.channel h.reads f.given (readers g h.channel) (readers-All g h.channel f.valid)
        f.log in
    (
      g,
      f.valid,
      subst (λ bs. Sublist (bs ++ view g h.channel) h.written) (sym all) f.part,
      readers_or g h.channel f.valid,
    )
