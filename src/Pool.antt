-- ===== src/Pool.antt =====
-- src/co_poll.cc and src/coroutine.cc: the pool that coroutines are taken from and given back to.
pub mod Ids
mod Tests
use mathlib.Core.Option
use tit_co.Base.{
  count, remove, ℕ, suc, ◌%◌, ltb, if◌then◌else◌, Option, none, some, List, [], ◌∷◌, length,
  get_elem?, get_or, set, replicate,
}

-- The union of `Coroutine`: `func_` (a closure) or `scheduler_`, whichever was written last.
pub data Body : Type 0 where
  func : ℕ → Body
  scheduler : ℕ → Body

-- `struct Coroutine`. `ctx_` is an offset into the stack (`none` for null); `wait_ctx_` names a
-- wait context of the channels.
pub record Coroutine : Type 0 where
  pub id : ℕ
  pub sched_id : ℕ
  pub stack_id : ℕ
  pub state : ℕ
  pub stack : List ℕ
  pub wait_ctx : Option ℕ
  pub ctx : Option ℕ
  pub body : Body

-- The constructor.
abbrev pub new : Coroutine
new = record {
  id = 0;
  sched_id = 0;
  stack_id = 0;
  state = 0;
  stack = [];
  wait_ctx = none;
  ctx = none;
  body = func 0;
}

-- `Coroutine::Init`: the wait context and the union stay as the last user left them.
abbrev pub init : Coroutine → Coroutine
init co = record co { state = 0; ctx = none; stack = [] }

abbrev pub pool_size : ℕ
pool_size = 256

-- `class Copoll`; the last of `idle_co_ids_` is the head of the list here.
pub record Copoll : Type 0 where
  pub id : ℕ
  pub idle : List ℕ
  pub pool : List Coroutine

unfoldable pub create : Copoll
create = record { id = 0; idle = []; pool = replicate pool_size new }

-- `co.id_ = id_; ++id_; co.stack_id_ = co.id_ & 7`
abbrev pub number : ℕ → Coroutine → Coroutine
number id co = record co { id = id; stack_id = id % 8 }

-- `Pop`: the id of the coroutine that it returns. The code does not compare the id with the length
-- of the pool: `none` is its access past the pool's end, which is undefined behaviour.
unfoldable pub pop : Copoll → Option (ℕ × Copoll)
pop p = elim p.idle [
  | [] ↦
      (if ltb p.id (length p.pool)
        then some (
          p.id,
          record p { id = suc p.id; pool = set p.pool p.id (number p.id (get_or p.pool p.id new)) },
        )
        else none)
  | last ∷ rest ↦
      (if ltb last (length p.pool)
        then some
            (last, record p { idle = rest; pool = set p.pool last (init (get_or p.pool last new)) })
        else none)
]

-- `Push`, of a coroutine by its id.
unfoldable pub push : Copoll → ℕ → Copoll
push p co_id = record p { idle = co_id ∷ p.idle }

-- `operator[]`
unfoldable pub at : Copoll → ℕ → Option Coroutine
at p i = get_elem? p.pool i

-- What the scheduler does with the pool: `Resume(NewCoroutine(…))` takes one, `Recycle` gives one
-- back that is in use; in between it changes.
pub data Call : Type 0 where
  pops : Call
  pushes : ℕ → Call
  runs : ℕ → Coroutine → Call

-- The pool beside the ids in use.
pub record Ledger : Type 0 where
  pub copoll : Copoll
  pub live : List ℕ

-- A coroutine in use changes in all but its id and stack.
abbrev pub rerun : Coroutine → Coroutine → Coroutine
rerun old co = record co { id = old.id; stack_id = old.stack_id }

-- `none` is an access past the pool's end, or a call that the scheduler does not make.
unfoldable pub step : Ledger → Call → Option Ledger
step l pops = Option.map (λ r. record l { copoll = r.1; live = r.0 ∷ l.live }) (pop l.copoll)
step l (pushes co_id) =
    if ltb 0 (count co_id l.live)
    then some (record l { copoll = push l.copoll co_id; live = remove co_id l.live })
    else none
step l (runs co_id co) =
    if ltb 0 (count co_id l.live)
    then some (record l {
      copoll = record (l.copoll) {
        pool = set l.copoll.pool co_id (rerun (get_or l.copoll.pool co_id new) co);
      };
    })
    else none

unfoldable pub run : Ledger → List Call → Option Ledger
run l [] = some l
run l (c ∷ cs) = Option.bind (step l c) (λ l'. run l' cs)
