-- ===== src/CoState.antt =====
-- The states that src/timer_manager.cc and src/channel.cc race for: that of each coroutine and
-- that of each wait context (include/channel.h, include/coroutine.h).
use tit_co.Base.{ℕ, ◌==◌, if◌then◌else◌, Option, none, some, List, [], ◌∷◌}

-- `enum co_state`
abbrev pub k_init : ℕ
k_init = 0

abbrev pub k_wait : ℕ
k_wait = 1

abbrev pub k_ready : ℕ
k_ready = 2

abbrev pub k_timeout : ℕ
k_timeout = 4

pub record Store : Type 0 where
  pub wait_ctx : ℕ → Option ℕ
  pub ctx_state : ℕ → ℕ
  pub co_state : ℕ → ℕ

abbrev pub update : (ℕ → ℕ) → ℕ → ℕ → ℕ → ℕ
update f i v j = if i == j then v else f j

-- The body of the loop for the coroutine of a timer that is due: the new states, and the coroutine
-- if it is pushed. `atomic_compare_swap` and `atomic_swap` return the old value.
unfoldable pub expire : Store → ℕ → Store × List ℕ
expire s co = elim (s.wait_ctx co) [
  | none ↦ (s, [])
  | some w ↦
      (if s.ctx_state w == k_init
        then (record s { ctx_state = update s.ctx_state w k_timeout }, co ∷ [])
        else (if s.co_state co == k_init then (s, co ∷ []) else (
          record s { co_state = update s.co_state co k_init },
          (if s.co_state co == k_wait then co ∷ [] else []),
        )))
]
