-- ===== src/Channel/Alloc.antt =====
-- The memory of a wait context in `ChannelImpl::CreateWaitCtxInfo` (src/channel.cc): one that waits
-- with a variable on its own stack gets room for the block behind the context.
use tit_co.Base.{ℕ, ◌+◌, ◌*◌, ◌<◌, ◌≡◌, Bool, true, if◌then◌else◌, Option, none, some, arith}

-- How many bytes `malloc` gives, and at which of them `buf_` points (`none` for the caller's own
-- variable).
pub record Alloc : Type 0 where
  pub size : ℕ
  pub buf : Option ℕ

-- `wait_ctx + sizeof(WaitCtx)` counts in contexts, not in bytes.
unfoldable pub alloc : ℕ → ℕ → Bool → Alloc
alloc sizeof_ctx blk_size on_stack =
    if on_stack
    then record { size = sizeof_ctx + blk_size; buf = some (sizeof_ctx * sizeof_ctx) }
    else record { size = sizeof_ctx; buf = none }

square-lt : (n : ℕ) → 1 < n → n < n * n
square-lt n h = grind arith

-- The block of a coroutine that waits with a variable on its stack ends behind the memory that was
-- allocated for it, for every size of block and every size of a context above one byte.
pub alloc_overrun :
    (sizeof_ctx blk_size off : ℕ)
    → 1 < sizeof_ctx
    → (alloc sizeof_ctx blk_size true).buf ≡ some off
    → (alloc sizeof_ctx blk_size true).size < off + blk_size
unfolding alloc
alloc_overrun sizeof_ctx blk_size off h e = ground (arith, square-lt sizeof_ctx h)
