-- ===== src/Channel/Fifo.antt =====
-- What the calls of `Read` and `Write` of src/channel.cc come to together.
use tit_co.Base.{
  ℕ, ◌*◌, ◌<◌, ◌≡◌, ◌⊎◌, refl, sym, ap, ap₂, subst, ◌∙◌, none, some, List, [], ◌∷◌, ◌++◌, map,
  append_assoc, append-nil, length, All, inl, inr, replicate, arith,
}
use mathlib.Core.List.{map-append}
use tit_co.Base.Word.{u32}
use tit_co.CoState.{k_init}
use tit_co.Channel.Waiters.{live}
use tit_co.Channel.View.{Shape, IsValid, view, readers, create-IsValid}
use tit_co.Channel.Writes.{Wrote, queued, served, write_refines}
use tit_co.Channel.Taken.{Reads, took, waited}
use tit_co.Channel.Reads.{read_refines}
use tit_co.Channel.{Channel, create, Outcome, read, write}
use tit_co.Channel.History.{Op, writes, reads, History, step, run, answer, write-Frame, read-Frame}
use tit_co.Channel.Answers.{
  asleep, Settled, Tells, Tells-Frame, Tells-append, Tells-answers, readers_or, no_readers,
  readers-All, some_block, waiting-answers,
}

-- The first calls of `Read` have their blocks, which are the first that were written, and the other
-- calls wait; the other blocks are in the channel.
record IsFifo (g : Shape) (h : History) : Type 0 where
  valid : IsValid g h.channel
  early : List Outcome
  given : List (List ℕ)
  reads : h.reads ≡ early ++ map (asleep h.channel.ms) (readers g h.channel)
  tells : Tells h.channel early given
  written : given ++ view g h.channel ≡ h.written

module _ (g : Shape) (h : History) (f : IsFifo g h) (block : List ℕ) (co : ℕ) where
  abbrev c : Channel
  c = h.channel

  abbrev c' : Channel
  c' = (write c co k_init block).0

  written-IsFifo :
      (g' : Shape)
      → IsValid g' c'
      → Wrote g c block g' c' (write c co k_init block).1
      → IsFifo g' (step h (writes co k_init block))
  unfolding step
  written-IsFifo g' v (queued r seen o) =
      let frame = write-Frame c co block in
      let r' = no_readers g' c' v (λ e. some_block (view g c) block (sym seen ∙ e)) in
      record {
        valid = v;
        early = f.early;
        given = f.given;
        reads =
            f.reads
            ∙ ap (λ ws. f.early ++ ws)
                (ap (map (asleep c.ms)) r ∙ sym (ap (map (asleep c'.ms)) r'));
        tells = Tells-Frame c c' frame f.early f.given f.tells;
        written =
            ap (λ bs. f.given ++ bs) seen
            ∙ sym (append_assoc f.given (view g c) (block ∷ []))
            ∙ ap (λ bs. bs ++ block ∷ []) f.written;
      }
  written-IsFifo g' v (served w rest r r' n n' cell state o) =
      let frame = write-Frame c co block in
      let known =
        subst (All (λ x. (x < c.fresh) × ((c.ctxs x).state ≡ k_init))) r
          (readers-All g c f.valid) in
      record {
        valid = v;
        early = f.early ++ asleep c.ms w ∷ [];
        given = f.given ++ block ∷ [];
        reads =
            f.reads
            ∙ ap (λ ws. f.early ++ map (asleep c.ms) ws) r
            ∙ sym (append_assoc f.early (asleep c.ms w ∷ []) (map (asleep c.ms) rest))
            ∙ ap₂ (λ ms ws. (f.early ++ asleep c.ms w ∷ []) ++ map (asleep ms) ws) (sym frame.ms)
                (sym r');
        tells =
            Tells-append c' f.early f.given (asleep c.ms w) block
              (Tells-Frame c c' frame f.early f.given f.tells)
              (omega (arith, frame.fresh, known.0.0), state, cell);
        written =
            ap (λ bs. (f.given ++ block ∷ []) ++ bs) n'
            ∙ append-nil (f.given ++ block ∷ [])
            ∙ ap (λ bs. bs ++ block ∷ [])
                (sym (append-nil f.given) ∙ ap (λ bs. f.given ++ bs) (sym n) ∙ f.written);
      }

module _ (g : Shape) (h : History) (f : IsFifo g h) (co : ℕ) where
  abbrev d : Channel
  d = h.channel

  abbrev d' : Channel
  d' = (read d co k_init).0

  read-IsFifo :
      (g' : Shape)
      → IsValid g' d'
      → Reads g d g' d' (read d co k_init).1
      → IsFifo g' (step h (reads co k_init))
  unfolding step
  read-IsFifo g' v (took block rest e e' r' o) =
      let frame = read-Frame d co in
      let r = no_readers g d f.valid (λ n. absurd (cc)) in
      let all_early : h.reads ≡ f.early =
        f.reads ∙ ap (λ ws. f.early ++ map (asleep d.ms) ws) r ∙ append-nil f.early in
      record {
        valid = v;
        early = f.early ++ (read d co k_init).1 ∷ [];
        given = f.given ++ block ∷ [];
        reads =
            ap (λ os. os ++ (read d co k_init).1 ∷ []) all_early
            ∙ sym (append-nil (f.early ++ (read d co k_init).1 ∷ []))
            ∙ ap (λ ws. (f.early ++ (read d co k_init).1 ∷ []) ++ map (asleep d'.ms) ws) (sym r');
        tells =
            Tells-append d' f.early f.given (read d co k_init).1 block
              (Tells-Frame d d' frame f.early f.given f.tells)
              (subst (λ x. Settled d' x block) (sym o) refl);
        written =
            append_assoc f.given (block ∷ []) (view g' d')
            ∙ ap (λ bs. f.given ++ block ∷ bs) e'
            ∙ ap (λ bs. f.given ++ bs) (sym e)
            ∙ f.written;
      }
  read-IsFifo g' v (waited n n' r' o) =
      let frame = read-Frame d co in
      record {
        valid = v;
        early = f.early;
        given = f.given;
        reads =
            ap₂ (λ os x. os ++ x ∷ []) f.reads o
            ∙ append_assoc f.early (map (asleep d.ms) (readers g d)) (asleep d.ms d.fresh ∷ [])
            ∙ ap (λ ws. f.early ++ ws)
                (sym (map-append (asleep d.ms) (readers g d) (d.fresh ∷ []))
                  ∙ ap₂ (λ ms ws. map (asleep ms) ws) (sym frame.ms) (sym r'));
        tells = Tells-Frame d d' frame f.early f.given f.tells;
        written = ap (λ bs. f.given ++ bs) (n' ∙ sym n) ∙ f.written;
      }

-- A wait context begins in the initial state, and `Write` is given blocks of the channel's size.
abbrev pub Fits : ℕ → Op → Type 0
Fits blk (writes co memory block) = (memory ≡ k_init) × (length block ≡ blk)
Fits blk (reads co memory) = memory ≡ k_init

step-IsFifo :
    (g : Shape) (h : History) (op : Op)
    → IsFifo g h
    → Fits h.channel.blk_size op
    → (g' : Shape) × IsFifo g' (step h op) × ((step h op).channel.blk_size ≡ h.channel.blk_size)
unfolding step
step-IsFifo g h (writes co memory block) f (init, fits) =
    let (g', v, w) = write_refines g h.channel co block f.valid fits in
    let frame = write-Frame h.channel co block in
    rw init (g', written-IsFifo g h f block co g' v w, frame.blk)
step-IsFifo g h (reads co memory) f init =
    let (g', v, r) = read_refines g h.channel co f.valid in
    let frame = read-Frame h.channel co in rw init (g', read-IsFifo g h f co g' v r, frame.blk)

run-IsFifo :
    (g : Shape) (h : History) (ops : List Op)
    → IsFifo g h
    → All (Fits h.channel.blk_size) ops
    → (g' : Shape) × IsFifo g' (run h ops)
unfolding run
run-IsFifo g h [] f fits = (g, f)
run-IsFifo g h (op ∷ ops) f (fit, fits) =
    let (g', f', e) = step-IsFifo g h op f fit in
    run-IsFifo g' (step h op) ops f' (subst (λ blk. All (Fits blk) ops) (sym e) fits)

IsFifo-answers :
    (g : Shape) (h : History)
    → IsFifo g h
    → (given : List (List ℕ)) × (n : ℕ) × (map (answer h.channel) h.reads
        ≡ map some given ++ replicate n none)
      × (given ++ view g h.channel ≡ h.written)
      × ((n ≡ 0) ⊎ (given ≡ h.written))
IsFifo-answers g h f =
    let c = h.channel in
    let ws = readers g c in
    (
      f.given,
      length ws,
      ap (map (answer c)) f.reads
          ∙ map-append (answer c) f.early (map (asleep c.ms) ws)
          ∙ ap₂ ◌++◌ (Tells-answers c f.early f.given f.tells)
              (waiting-answers c c.ms ws (readers-All g c f.valid)),
      f.written,
      elim (readers_or g c f.valid) [
        | inl r ↦ inl (ap length r)
        | inr n ↦ inr (sym (append-nil f.given) ∙ ap (λ bs. f.given ++ bs) (sym n) ∙ f.written)
      ],
    )

abbrev pub begun : ℕ → ℕ → ℕ → List ℕ → History
begun cap blk ms memory = record {
  channel = create (cap * blk) blk ms memory;
  reads = [];
  written = [];
}

-- First in, first out: however coroutines write and read blocks of the size of a new channel, of
-- whatever capacity, as long as nobody's time runs out and the memory of each wait context holds the
-- initial state, which its constructor does not set, the calls of `Read` that have an answer are
-- the first ones, their answers are the first blocks that were written, in the order of the calls of
-- `Write`, and the blocks that follow are those in the channel; and if a call of `Read` has no
-- answer yet, all blocks have been read.
pub fifo_answers :
    (cap blk ms : ℕ) (memory : List ℕ) (ops : List Op)
    → 0 < cap
    → 0 < blk
    → cap * blk < u32
    → length memory ≡ cap * blk
    → All (Fits blk) ops
    → let h = run (begun cap blk ms memory) ops in
      (g : Shape) × IsValid g h.channel
      × (given : List (List ℕ)) × (n : ℕ) × (map (answer h.channel) h.reads
          ≡ map some given ++ replicate n none)
      × (given ++ view g h.channel ≡ h.written)
      × ((n ≡ 0) ⊎ (given ≡ h.written))
unfolding create live
fifo_answers size blk ms memory ops hc hb hs hm fits =
    let (valid, empty) = create-IsValid size blk ms memory hc hb hs hm in
    let start : IsFifo (record { cap = size; first = 0; count = 0 }) (begun size blk ms memory) =
      record { valid = valid; early = []; given = []; reads = refl; tells = tt; written = empty } in
    let (g, f) = run-IsFifo _ (begun size blk ms memory) ops start fits in
    let (given, n, answers, split, all) = IsFifo-answers g (run (begun size blk ms memory) ops) f in
    (g, f.valid, given, n, answers, split, all)
