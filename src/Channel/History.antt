-- ===== src/Channel/History.antt =====
-- A channel of src/channel.cc over all the operations of its coroutines, while nobody's time runs
-- out: what `Read` returns, at once or after a wait, in the order of the calls.
use tit_co.Base.{
  ℕ, ◌≤◌, ◌<◌, ◌≡◌, ◌≢◌, refl, ap, ◌∙◌, Bool, true, false, not, ◌==◌, if◌then◌else◌, Option, none,
  some, List, [], ◌∷◌, ◌++◌, Bool-cases, inl, inr, arith,
}
use tit_co.CoState.{k_init, k_ready}
use tit_co.Base.Bytes.{read_block}
use tit_co.Channel.Waiters.{WaitCtx, pop_live}
use tit_co.Channel.{
  Channel, advance, park, Outcome, done, waits, timer_of, refill, store, hand_over, read, write,
  resumed,
}

-- A call, with the coroutine and the byte that the memory of its wait context holds at `state_`.
pub data Op : Type 0 where
  writes : ℕ → ℕ → List ℕ → Op
  reads : ℕ → ℕ → Op

-- The channel, what the calls of `Read` came to, and the blocks of the calls of `Write`, in order.
pub record History : Type 0 where
  pub channel : Channel
  pub reads : List Outcome
  pub written : List (List ℕ)

unfoldable pub step : History → Op → History
unfolding read write
step h (writes co memory block) = record h {
  channel = (write h.channel co memory block).0;
  written = h.written ++ block ∷ [];
}
step h (reads co memory) = record h {
  channel = (read h.channel co memory).0;
  reads = h.reads ++ (read h.channel co memory).1 ∷ [];
}

unfoldable pub run : History → List Op → History
unfolding step
run h [] = h
run h (op ∷ ops) = run (step h op) ops

-- What a call of `Read` has returned by now: a reader that waited returns when it is ready.
unfoldable pub answer : Channel → Outcome → Option (List ℕ)
unfolding resumed
answer c (done block ready) = some block
answer c (waits w timer) = if (c.ctxs w).state == k_ready then resumed c w false else none

-- An operation leaves alone what has been decided.
pub record Frame (c c' : Channel) : Type 0 where
  pub blk : c'.blk_size ≡ c.blk_size
  pub ms : c'.ms ≡ c.ms
  pub fresh : c.fresh ≤ c'.fresh
  pub kept : (w : ℕ) → w < c.fresh → (c.ctxs w).state ≢ k_init → c'.ctxs w ≡ c.ctxs w

park-Frame : (c : Channel) (co : ℕ) (cell : List ℕ) → Frame c (park c co k_init cell)
unfolding park
park-Frame c co cell = record {
  blk = refl;
  ms = refl;
  fresh = omega arith;
  kept = λ w h n. ground (arith, h);
}

abbrev Waiting : Channel → Option (ℕ × List ℕ) → Type 0
Waiting c none = Unit
Waiting c (some (w, rest)) = (c.ctxs w).state ≡ k_init

pop_live-Waiting : (c : Channel) (q : List ℕ) → Waiting c (pop_live c.ctxs q)
unfolding pop_live
pop_live-Waiting c [] = tt
pop_live-Waiting c (w ∷ q) = elim (Bool-cases ((c.ctxs w).state == k_init)) [
  | inl e ↦ rw e (ground (arith, e))
  | inr e ↦ rw e (pop_live-Waiting c q)
]

hand_over-Frame :
    (c : Channel) (block : List ℕ) (r : Option (ℕ × List ℕ))
    → Waiting c r
    → Frame c (hand_over c block r).0
unfolding hand_over store
hand_over-Frame c block none h = record {
  blk = refl;
  ms = refl;
  fresh = omega arith;
  kept = λ w l n. refl;
}
hand_over-Frame c block (some (w, rest)) h = record {
  blk = refl;
  ms = refl;
  fresh = omega arith;
  kept = λ v l n. ground (arith, n);
}

refill-Frame : (c : Channel) (r : Option (ℕ × List ℕ)) → Waiting c r → Frame c (refill c r).0
unfolding refill
refill-Frame c none h = record { blk = refl; ms = refl; fresh = omega arith; kept = λ w l n. refl }
refill-Frame c (some (w, rest)) h = record {
  blk = refl;
  ms = refl;
  fresh = omega arith;
  kept = λ v l n. ground (arith, n);
}

store-Frame : (c : Channel) (block : List ℕ) → Frame c (store c block)
unfolding store
store-Frame c block = record { blk = refl; ms = refl; fresh = omega arith; kept = λ w l n. refl }

moved-Frame : (c : Channel) (rx : ℕ) → Frame c (record c { rx = rx })
moved-Frame c rx = record { blk = refl; ms = refl; fresh = omega arith; kept = λ w l n. refl }

trans-Frame :
    (c d e : Channel) → d.ctxs ≡ c.ctxs → d.fresh ≡ c.fresh → Frame c d → Frame d e → Frame c e
trans-Frame c d e f n h k = record {
  blk = k.blk ∙ h.blk;
  ms = k.ms ∙ h.ms;
  fresh = omega (arith, h.fresh, k.fresh);
  kept = λ w l i. ground (arith, k.kept w, h.kept w l i, n, ap (λ (g : ℕ → WaitCtx). g w) f);
}

either-Frame :
    (c : Channel) (b : Bool) (x y : Channel × Outcome)
    → Frame c x.0
    → Frame c y.0
    → Frame c (if b then x else y).0
either-Frame c true x y h k = h
either-Frame c false x y h k = k

pub write-Frame : (c : Channel) (co : ℕ) (block : List ℕ) → Frame c (write c co k_init block).0
unfolding write
write-Frame c co block =
    let (served, ready) = hand_over c block (pop_live c.ctxs c.wait_queue) in
    let parked : Channel × Outcome = (park c co k_init block, waits c.fresh (timer_of c.ms)) in
    either-Frame c (not (c.wx == c.rx)) (store c block, done [] none) _ (store-Frame c block)
      (either-Frame c (not c.full) (served, done [] ready) parked
        (hand_over-Frame c block (pop_live c.ctxs c.wait_queue) (pop_live-Waiting c c.wait_queue))
        (park-Frame c co block))

pub read-Frame : (c : Channel) (co : ℕ) → Frame c (read c co k_init).0
unfolding read
read-Frame c co =
    let block = read_block c.buf c.rx c.blk_size in
    let moved = record c { rx = advance c c.rx } in
    let (refilled, ready) = refill moved (pop_live c.ctxs c.wait_queue) in
    let parked : Channel × Outcome = (park c co k_init [], waits c.fresh (timer_of c.ms)) in
    either-Frame c (not (c.rx == c.wx)) (moved, done block none) _ (moved-Frame c (advance c c.rx))
      (either-Frame c (not c.full) parked (refilled, done block ready) (park-Frame c co [])
        (trans-Frame c moved refilled refl refl (moved-Frame c (advance c c.rx))
          (refill-Frame moved (pop_live c.ctxs c.wait_queue) (pop_live-Waiting c c.wait_queue))))
