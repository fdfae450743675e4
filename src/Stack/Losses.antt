-- ===== src/Stack/Losses.antt =====
-- What the copying of src/scheduler.cc loses and what it overwrites.
use tit_co.Base.{ℕ, ◌-◌, ◌≤◌, ◌<◌, ◌≡◌, true, false, some, arith}
use tit_co.Stack.{k_small_buffer, append, Share, save_stack, is, resume_at, resume}

-- A coroutine that has 4000 bytes or more on the stack when another needs it is not saved: its
-- buffer then says that it is empty, and still holds the bytes of an earlier time, which go onto the
-- stack when it is resumed.
pub large_frame_lost :
    (s : Share) (o ctx : ℕ)
    → (s.fibers o).ctx ≡ some ctx
    → k_small_buffer ≤ s.top - ctx
    → let b = ((save_stack s (some o)).fibers o).stack in
      (b.cur ≡ 0) × (b.data_ ≡ (s.fibers o).stack.data_)
unfolding save_stack append
large_frame_lost s o ctx e big = (ground arith, ground arith)

-- `Resume` of a coroutine that has less than 4000 bytes to put back writes past the end of the
-- stack: the byte at the top, which belongs to somebody else, becomes what the buffer holds behind
-- the coroutine's bytes.
pub restore_overruns :
    (s : Share) (co ctx entry : ℕ)
    → s.made ≡ true
    → is s.owner co ≡ false
    → (s.fibers co).ctx ≡ some ctx
    → ctx ≤ s.top
    → s.top - ctx < k_small_buffer
    → (resume s co entry).mem s.top ≡ (s.fibers co).stack.data_ (s.top - ctx)
unfolding resume resume_at
restore_overruns s co ctx entry m o e le small = rw e (ground arith)
