-- ===== src/Stack.antt =====
-- A stack that coroutines share (`SaveStack`, `Resume` and `Recycle` of src/scheduler.cc), and the
-- buffer that each copies its part to (`FixedBuffer` of include/stream.h). One of the stacks is
-- modelled, with the coroutines that use it. Addresses are offsets from `stack->p`; what lies at
-- `stack->top` and behind it is memory of others.
pub mod Copies
pub mod Kept
pub mod Losses
mod Tests
use tit_co.Base.{
  ℕ, ◌+◌, ◌-◌, ◌≡◌, ◌≤◌, ◌<◌, ◌==◌, ◌&&◌, Bool, true, false, ltb, leb, if◌then◌else◌, Option, none,
  some,
}

-- `memcpy(dst + to, src + from, n)`
abbrev pub memcpy : (ℕ → ℕ) → ℕ → (ℕ → ℕ) → ℕ → ℕ → ℕ → ℕ
memcpy dst to src from n j = if leb to j && ltb j (to + n) then src (from + (j - to)) else dst j

abbrev pub k_small_buffer : ℕ
k_small_buffer = 4000

-- `FixedBuffer<kSmallBuffer>`, with `cur_` as an offset.
pub record Buffer : Type 0 where
  pub data_ : ℕ → ℕ
  pub cur : ℕ

-- `append`: too much is left out without a word.
unfoldable pub append : Buffer → (ℕ → ℕ) → ℕ → ℕ → Buffer
append b buf from len =
    if ltb len (k_small_buffer - b.cur)
    then record { data_ = memcpy b.data_ b.cur buf from len; cur = b.cur + len }
    else b

abbrev pub reset : Buffer → Buffer
reset b = record b { cur = 0 }

-- `Stream::size` is the capacity, not the length.
abbrev pub size : Buffer → ℕ
size b = k_small_buffer

-- What a coroutine has of its stack: `ctx_`, an offset, and `stack_`.
pub record Fiber : Type 0 where
  pub ctx : Option ℕ
  pub stack : Buffer

-- The memory, `stack->top`, `stack->co` with `stack->p` not null, the coroutines, and the one that
-- runs. `frame i j` is the byte at `j` when coroutine `i` yielded last; the code has no such field.
pub record Share : Type 0 where
  pub mem : ℕ → ℕ
  pub top : ℕ
  pub made : Bool
  pub owner : Option ℕ
  pub fibers : ℕ → Fiber
  pub running : Option ℕ
  pub frame : ℕ → ℕ → ℕ

abbrev pub update {ℓ} : {A : Type ℓ} → (ℕ → A) → ℕ → A → ℕ → A
update f i a j = if i == j then a else f j

-- `SaveStack`; an owner that does not run has a context.
abbrev pub saved : Share → ℕ → Fiber
saved s o = elim (s.fibers o).ctx [
  | none ↦ s.fibers o
  | some bottom ↦ record (s.fibers o) {
    stack = append (reset (s.fibers o).stack) s.mem bottom (s.top - bottom);
  }
]

unfoldable pub save_stack : Share → Option ℕ → Share
unfolding append
save_stack s none = s
save_stack s (some o) = record s { fibers = update s.fibers o (saved s o) }

abbrev pub is : Option ℕ → ℕ → Bool
is none i = false
is (some o) i = o == i

-- The stack is made by its first coroutine; another's part of it is saved first.
abbrev pub owner_of : Share → ℕ → Option ℕ
owner_of s co = if s.made then s.owner else some co

unfoldable pub moved : Share → ℕ → Share
unfolding save_stack
moved s co = if is (owner_of s co) co then s else save_stack s (owner_of s co)

-- `Resume` up to the jump, by the coroutine's context; `entry` is the one that `tb_context_make`
-- gives for a new coroutine. A jump for which the stack grows writes 4000 bytes past its top, into
-- memory of others that is not part of this state.
unfoldable pub resume_at : Share → ℕ → ℕ → Option ℕ → Share
unfolding moved
resume_at s co entry none = record (moved s co) {
  made = true;
  owner = some co;
  running = some co;
  fibers = update (moved s co).fibers co (record ((moved s co).fibers co) { ctx = some entry });
}
resume_at s co entry (some ctx) = record (moved s co) {
  made = true;
  owner = some co;
  running = some co;
  mem =
      if is (owner_of s co) co
      then s.mem
      else memcpy s.mem ctx (s.fibers co).stack.data_ 0 (size (s.fibers co).stack);
}

unfoldable pub resume : Share → ℕ → ℕ → Share
unfolding resume_at
resume s co entry = resume_at s co entry (s.fibers co).ctx

-- The coroutine that runs yields: it has changed the memory, and its context is `ctx`.
unfoldable pub yielded : Share → ℕ → (ℕ → ℕ) → ℕ → Share
yielded s co mem ctx = record s {
  mem = mem;
  running = none;
  fibers = update s.fibers co (record (s.fibers co) { ctx = some ctx });
  frame = update s.frame co mem;
}

-- It returns: `Recycle`. It is resumed again only as a new coroutine, after `Init`, which is taken
-- together with this step.
unfoldable pub recycled : Share → ℕ → (ℕ → ℕ) → Share
recycled s co mem = record s {
  mem = mem;
  running = none;
  owner = none;
  fibers = update s.fibers co (record { ctx = none; stack = reset (s.fibers co).stack });
}

pub data Step (s t : Share) : Type 0 where
  resumes : (co entry : ℕ) → s.running ≡ none → t ≡ resume s co entry → Step s t
  yields :
      (co : ℕ) (mem : ℕ → ℕ) (ctx : ℕ)
      → s.running ≡ some co
      → ctx ≤ s.top
      → s.top - ctx < k_small_buffer
      → t ≡ yielded s co mem ctx
      → Step s t
  returns : (co : ℕ) (mem : ℕ → ℕ) → s.running ≡ some co → t ≡ recycled s co mem → Step s t

pub data Reach (s : Share) : Share → Type 0 where
  here : Reach s s
  next : {t u : Share} → Reach s t → Step t u → Reach s u

-- Before the first coroutine.
abbrev pub start : ℕ → (ℕ → ℕ) → (ℕ → ℕ → ℕ) → Share
start top mem memory = record {
  mem = mem;
  top = top;
  made = false;
  owner = none;
  fibers = λ i. record { ctx = none; stack = record { data_ = memory i; cur = 0 } };
  running = none;
  frame = λ i j. 0;
}
