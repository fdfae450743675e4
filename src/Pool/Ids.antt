-- ===== src/Pool/Ids.antt =====
-- The ids that src/co_poll.cc hands out: distinct among the coroutines in use, and each with the
-- pool entry and the share stack that belong to it.
use mathlib.Core.Option
use tit_co.Base.{
  get_elem?-set_self, get_or-replicate, Option-cases, subst, ℕ, ◌+◌, ◌%◌, ◌<◌, ◌≤◌, ◌≡◌, refl, ◌↔◌,
  inl, inr, ltb, if◌then◌else◌, none, some, List, [], ◌∷◌, length, get_or, count, length-set,
  get_or-set_self, get_or-set_ne, count-remove, length-remove, arith,
}
use tit_co.Pool.{
  Coroutine, new, init, number, pool_size, pop, push, at, Call, pops, pushes, runs, Ledger, rerun,
  step, run, create,
}

-- The ids below `id` are those in use and those idle, each once; the entry of each carries it.
pub record IsValid (l : Ledger) : Type 0 where
  pub size : length l.copoll.pool ≡ pool_size
  pub bound : l.copoll.id ≤ pool_size
  pub counted : length l.live + length l.copoll.idle ≡ l.copoll.id
  pub once : (a : ℕ) → count a l.live + count a l.copoll.idle ≡ (if ltb a l.copoll.id then 1 else 0)
  pub entry :
      (a : ℕ)
      → a < l.copoll.id
      → ((get_or l.copoll.pool a new).id ≡ a) × ((get_or l.copoll.pool a new).stack_id ≡ a % 8)
  pub unused : (a : ℕ) → l.copoll.id ≤ a → get_or l.copoll.pool a new ≡ new

module _ (l l' : Ledger) (v : IsValid l) where
  pop_new-IsValid : l.copoll.idle ≡ [] → step l pops ≡ some l' → IsValid l'
  unfolding step pop
  pop_new-IsValid e h = record {
    size = ground (arith, v.size, length-set l.copoll.pool id entry);
    bound = ground (arith, v.size);
    counted = ground arith;
    once = λ a. ground (arith, v.once a);
    entry = λ a lt. ground (
      arith,
      v.size,
      v.entry a,
      get_or-set_self l.copoll.pool id entry new,
      get_or-set_ne l.copoll.pool id a entry new,
    );
    unused =
        λ a le. ground (arith, v.unused a, v.once id, get_or-set_ne l.copoll.pool id a entry new);
  }
    where
      id : ℕ
      id = l.copoll.id

      entry : Coroutine
      entry = number id (get_or l.copoll.pool id new)

  pop_idle-IsValid :
      (last : ℕ) (rest : List ℕ) → l.copoll.idle ≡ last ∷ rest → step l pops ≡ some l' → IsValid l'
  unfolding step pop
  pop_idle-IsValid last rest e h = record {
    size = ground (arith, v.size, length-set l.copoll.pool last entry);
    bound = ground arith;
    counted = ground arith;
    once = λ a. ground (arith, v.once a);
    entry = λ a lt. ground (
      arith,
      v.entry a,
      v.entry last,
      v.once last,
      get_or-set_self l.copoll.pool last entry new,
      get_or-set_ne l.copoll.pool last a entry new,
    );
    unused = λ a le.
        ground (arith, v.unused a, v.once last, get_or-set_ne l.copoll.pool last a entry new);
  }
    where
      entry : Coroutine
      entry = init (get_or l.copoll.pool last new)

  push-IsValid : (co_id : ℕ) → step l (pushes co_id) ≡ some l' → IsValid l'
  unfolding step push
  push-IsValid co_id h = record {
    size = ground arith;
    bound = ground arith;
    counted = ground (arith, length-remove co_id l.live);
    once = λ a. ground (arith, v.once a, count-remove a co_id l.live);
    entry = λ a lt. ground (arith, v.entry a);
    unused = λ a le. ground (arith, v.unused a);
  }

  runs-IsValid : (co_id : ℕ) (co : Coroutine) → step l (runs co_id co) ≡ some l' → IsValid l'
  unfolding step
  runs-IsValid co_id co h = record {
    size = ground (arith, length-set l.copoll.pool co_id entry);
    bound = ground arith;
    counted = ground arith;
    once = λ a. ground (arith, v.once a);
    entry = λ a lt. ground (
      arith,
      v.entry a,
      v.entry co_id,
      v.once co_id,
      get_or-set_self l.copoll.pool co_id entry new,
      get_or-set_ne l.copoll.pool co_id a entry new,
    );
    unused = λ a le.
        ground (arith, v.unused a, v.once co_id, get_or-set_ne l.copoll.pool co_id a entry new);
  }
    where
      entry : Coroutine
      entry = rerun (get_or l.copoll.pool co_id new) co

pub step-IsValid : (l l' : Ledger) (c : Call) → IsValid l → step l c ≡ some l' → IsValid l'
step-IsValid l l' pops v h = by_idle l.copoll.idle refl
  where
    by_idle : (idle : List ℕ) → l.copoll.idle ≡ idle → IsValid l'
    by_idle [] e = pop_new-IsValid l l' v e h
    by_idle (last ∷ rest) e = pop_idle-IsValid l l' v last rest e h
step-IsValid l l' (pushes co_id) v h = push-IsValid l l' v co_id h
step-IsValid l l' (runs co_id co) v h = runs-IsValid l l' v co_id co h

abbrev pub initial : Ledger
unfolding create
initial = record { copoll = create; live = [] }

initial-IsValid : IsValid initial
unfolding create
initial-IsValid = record {
  size = refl;
  bound = omega arith;
  counted = refl;
  once = λ a. ground arith;
  entry = λ a lt. absurd (omega arith);
  unused = λ a le. get_or-replicate a 256 new;
}

run_from-IsValid : (cs : List Call) (l l' : Ledger) → IsValid l → run l cs ≡ some l' → IsValid l'
unfolding run Option.bind
run_from-IsValid [] l l' v h = subst IsValid (cc) v
run_from-IsValid (c ∷ cs) l l' v h = elim (Option-cases (step l c)) [
  | inl e ↦ absurd (ground arith)
  | inr (m, e) ↦ run_from-IsValid cs m l' (step-IsValid l m c v e) (ground arith)
]

-- After any calls on a new pool that it survives, each id below the pool's counter is in use or
-- idle, exactly once, no other id is either, and the entry of each carries its id and the share
-- stack `id % 8`, whatever the coroutines did meanwhile.
pub run-IsValid : (cs : List Call) (l : Ledger) → run initial cs ≡ some l → IsValid l
run-IsValid cs l h = run_from-IsValid cs initial l initial-IsValid h

-- What `Pop` hands out, in the new state `l'`.
abbrev pub IsFresh : Ledger → Ledger → ℕ → Coroutine → Type 0
IsFresh l l' a co =
    (l'.live ≡ a ∷ l.live)
    × (count a l.live ≡ 0)
    × (at l'.copoll a ≡ some co)
    × (co.id ≡ a)
    × (co.ctx ≡ none)
    × (co.stack ≡ [])
    × (co.state ≡ 0)

pop-IsFresh_by :
    (idle : List ℕ) (l l' : Ledger)
    → l.copoll.idle ≡ idle
    → IsValid l
    → step l pops ≡ some l'
    → (a : ℕ) × (co : Coroutine) × IsFresh l l' a co
unfolding step pop at
pop-IsFresh_by [] l l' e v h =
    let id = l.copoll.id in
    let entry : Coroutine = number id (get_or l.copoll.pool id new) in
    (
      id,
      entry,
      ground (arith, v.once id, v.unused id, v.size, get_elem?-set_self l.copoll.pool id entry),
    )
pop-IsFresh_by (last ∷ rest) l l' e v h =
    let entry : Coroutine = init (get_or l.copoll.pool last new) in
    (
      last,
      entry,
      ground
          (arith, v.once last, v.entry last, v.size, get_elem?-set_self l.copoll.pool last entry),
    )

-- What `Pop` hands out is in use by nobody, stands in the pool under its own id, and has no
-- context, no saved stack and the initial state.
pub pop-IsFresh :
    (l l' : Ledger)
    → IsValid l
    → step l pops ≡ some l'
    → (a : ℕ) × (co : Coroutine) × IsFresh l l' a co
pop-IsFresh l l' v h = pop-IsFresh_by l.copoll.idle l l' refl v h

pop_overrun_by :
    (idle : List ℕ) (l : Ledger)
    → l.copoll.idle ≡ idle
    → IsValid l
    → (step l pops ≡ none) ↔ (length l.live ≡ pool_size)
unfolding step pop
pop_overrun_by [] l e v = (λ h. ground (arith, v.size), λ h. ground (arith, v.size))
pop_overrun_by (last ∷ rest) l e v =
    (λ h. ground (arith, v.size, v.once last), λ h. ground (arith, v.size, v.once last))

-- `Pop` runs past the end of the pool exactly when all 256 ids are in use: it neither grows the
-- pool nor refuses.
pub pop_overrun : (l : Ledger) → IsValid l → (step l pops ≡ none) ↔ (length l.live ≡ pool_size)
pop_overrun l v = pop_overrun_by l.copoll.idle l refl v
