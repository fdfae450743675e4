-- ===== src/Channel.antt =====
-- include/channel.h and src/channel.cc: a bounded channel of blocks of bytes. An operation holds
-- the lock from its first line to its `UnLock`, and what follows touches only its own wait context,
-- so the part before the `Yield` is one step.
pub mod Waiters
pub mod Ring
pub mod View
pub mod Store
pub mod Taken
pub mod Writes
pub mod Reads
pub mod History
pub mod Answers
pub mod Fifo
pub mod Expiry
pub mod Log
pub mod Ordered
pub mod Timed
pub mod Alloc
mod Tests
use tit_co.Base.{
  ℕ, suc, ◌+◌, ◌*◌, ◌%◌, Bool, true, false, not, ◌==◌, if◌then◌else◌, Option, none, some, List, [],
  ◌∷◌, ◌++◌, replicate,
}
use tit_co.Base.Word.{u32, minus_one}
use tit_co.CoState.{k_init, k_ready, k_timeout}
use tit_co.Base.Bytes.{read_block, write_block}
use Waiters.{WaitCtx, update, pop_live}

-- `class ChannelImpl`, with the wait contexts that exist: `fresh` is the next that is made.
pub record Channel : Type 0 where
  pub buf : List ℕ
  pub buf_size : ℕ
  pub blk_size : ℕ
  pub rx : ℕ
  pub wx : ℕ
  pub ms : ℕ
  pub full : Bool
  pub wait_queue : List ℕ
  pub ctxs : ℕ → WaitCtx
  pub fresh : ℕ

-- The constructor, with what `malloc` found in the memory.
unfoldable pub create : ℕ → ℕ → ℕ → List ℕ → Channel
create buf_size blk_size ms memory = record {
  buf = memory;
  buf_size = buf_size;
  blk_size = blk_size;
  rx = 0;
  wx = 0;
  ms = ms;
  full = false;
  wait_queue = [];
  ctxs = λ _. record { co = 0; state = k_timeout; cell = [] };
  fresh = 0;
}

-- `rx_ += blk_size_; if (rx_ == buf_size_) rx_ = 0;`, and so for `wx_`
unfoldable pub advance : Channel → ℕ → ℕ
advance c x = let y = (x + c.blk_size) % u32 in if y == c.buf_size then 0 else y

-- `CreateWaitCtxInfo`, and the push on the queue. `state_` is not set: it is the byte that `malloc`
-- found. `cell` is what the memory of the waiter holds; where `buf_` lies in it is another matter,
-- that of Channel.Alloc.
unfoldable pub park : Channel → ℕ → ℕ → List ℕ → Channel
park c co memory cell = record c {
  wait_queue = c.wait_queue ++ c.fresh ∷ [];
  ctxs = update c.ctxs c.fresh (record { co = co; state = memory; cell = cell });
  fresh = suc c.fresh;
}

-- The timer that a wait gets, and what an operation comes to before it returns or yields: done,
-- with the block that it read and the coroutine that it made ready, or a wait.
pub data Outcome : Type 0 where
  done : List ℕ → Option ℕ → Outcome
  waits : ℕ → Option ℕ → Outcome

abbrev pub timer_of : ℕ → Option ℕ
timer_of ms = if ms == minus_one then none else some ms

-- The loops that pop wait contexts until a compare-and-swap succeeds: the rest of `Read` on a full
-- channel, where `c` has its `rx` moved on, ...
unfoldable pub refill : Channel → Option (ℕ × List ℕ) → Channel × Option ℕ
unfolding advance
refill c none = (record c { full = false; wait_queue = [] }, none)
refill c (some (w, rest)) = (
  record c {
    buf = write_block c.buf c.wx (c.ctxs w).cell;
    wx = advance c c.wx;
    wait_queue = rest;
    ctxs = update c.ctxs w (record (c.ctxs w) { state = k_ready });
  },
  some (c.ctxs w).co,
)

-- A block put into the buffer.
unfoldable pub store : Channel → List ℕ → Channel
unfolding advance
store c block =
    let wx = advance c c.wx in
    record c {
      buf = write_block c.buf c.wx block;
      wx = wx;
      full = if wx == c.rx then true else c.full;
    }

-- ... and that of `Write` on an empty one.
unfoldable pub hand_over : Channel → List ℕ → Option (ℕ × List ℕ) → Channel × Option ℕ
unfolding store
hand_over c block none = (store (record c { wait_queue = [] }) block, none)
hand_over c block (some (w, rest)) = (
  record c {
    wait_queue = rest;
    ctxs = update c.ctxs w (record (c.ctxs w) { state = k_ready; cell = block });
  },
  some (c.ctxs w).co,
)

-- `Read` by the coroutine `co`.
unfoldable pub read : Channel → ℕ → ℕ → Channel × Outcome
unfolding advance park refill
read c co memory =
    let block = read_block c.buf c.rx c.blk_size in
    let moved = record c { rx = advance c c.rx } in
    if not (c.rx == c.wx)
    then (moved, done block none)
    else (if not c.full
        then (park c co memory [], waits c.fresh (timer_of c.ms))
        else (let (c', ready) = refill moved (pop_live c.ctxs c.wait_queue) in
            (c', done block ready)))

-- `Write` of a block by the coroutine `co`.
unfoldable pub write : Channel → ℕ → ℕ → List ℕ → Channel × Outcome
unfolding park hand_over store
write c co memory block =
    if not (c.wx == c.rx)
    then (store c block, done [] none)
    else (if not c.full
        then (let (c', ready) = hand_over c block (pop_live c.ctxs c.wait_queue) in
            (c', done [] ready))
        else (park c co memory block, waits c.fresh (timer_of c.ms)))

-- What a reader that waited at `w` has when it is resumed: nothing if its time ran out.
unfoldable pub resumed : Channel → ℕ → Bool → Option (List ℕ)
resumed c w is_timeout = if is_timeout then none else some (c.ctxs w).cell
