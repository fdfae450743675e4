-- ===== src/Channel/Expiry.antt =====
-- Waits at a channel of src/channel.cc whose time runs out (src/timer_manager.cc): what the calls of
-- `Read` have come to then.
use mathlib.Core.List.Sublist
use mathlib.Core.List.{Sublist}
use tit_co.Base.{
  ℕ, ◌≡◌, ◌⊎◌, refl, ap₂, ◌==◌, if◌then◌else◌, Option, none, some, List, [], ◌∷◌, Bool-cases, inl,
  inr, arith,
}
use tit_co.CoState.{k_init, k_timeout}
use tit_co.Channel.Waiters.{WaitCtx, update, live, cells}
use tit_co.Channel.{Channel, Outcome}
use tit_co.Channel.History.{Op, History, step, answer, Frame}

abbrev pub without : ℕ → List ℕ → List ℕ
without w [] = []
without w (v ∷ vs) = if v == w then without w vs else v ∷ without w vs

-- The compare-and-swap with which `CollectTimeoutTasks` ends the wait at `w`.
unfoldable pub expire : Channel → ℕ → Channel
expire c w =
    if (c.ctxs w).state == k_init
    then record c { ctxs = update c.ctxs w (record (c.ctxs w) { state = k_timeout }) }
    else c

pub data Event : Type 0 where
  calls : Op → Event
  expires : ℕ → Event

unfoldable pub occurs : History → Event → History
unfolding step expire
occurs h (calls op) = step h op
occurs h (expires w) = record h { channel = expire h.channel w }

unfoldable pub passes : History → List Event → History
unfolding occurs
passes h [] = h
passes h (e ∷ es) = passes (occurs h e) es

-- The blocks that calls of `Read` have returned, in the order of the calls.
abbrev pub counted : Option (List ℕ) → List (List ℕ) → List (List ℕ)
counted none bs = bs
counted (some b) bs = b ∷ bs

unfoldable pub returned : Channel → List Outcome → List (List ℕ)
unfolding answer
returned c [] = []
returned c (o ∷ os) = counted (answer c o) (returned c os)

-- What an expiry leaves of a queue.
module _ (f : ℕ → WaitCtx) (w : ℕ) where
  abbrev pub gave_up : WaitCtx
  gave_up = record (f w) { state = k_timeout }

  pub live-without : (q : List ℕ) → live (update f w gave_up) q ≡ without w (live f q)
  unfolding live
  live-without [] = refl
  live-without (v ∷ q) = ground (arith, live-without q)

  pub cells-same : (q : List ℕ) → cells (update f w gave_up) q ≡ cells f q
  cells-same [] = refl
  cells-same (v ∷ q) = ap₂ ◌∷◌ (ground arith) (cells-same q)

  pub cells-without : (q : List ℕ) → Sublist (cells f (without w q)) (cells f q)
  cells-without [] = Sublist.refl []
  cells-without (v ∷ q) = elim (Bool-cases (v == w)) [
    | inl t ↦ rw t (Sublist.cons (f v).cell (cells-without q))
    | inr t ↦ rw t (Sublist.cons-cons (f v).cell (cells-without q))
  ]

pub expire-Frame : (c : Channel) (w : ℕ) → Frame c (expire c w)
unfolding expire
expire-Frame c w = record {
  blk = ground arith;
  ms = ground arith;
  fresh = ground arith;
  kept = λ v l n. ground (arith, n);
}

-- An expiry, by whether the wait goes on until then.
pub expire-cases :
    (c : Channel) (w : ℕ)
    → (expire c w ≡ c)
      ⊎ (((c.ctxs w).state ≡ k_init)
          × (expire c w ≡ record c { ctxs = update c.ctxs w (gave_up c.ctxs w) }))
unfolding expire
expire-cases c w = elim (Bool-cases ((c.ctxs w).state == k_init)) [
  | inl e ↦ inr (ground (arith, e), rw e refl)
  | inr e ↦ inl (rw e refl)
]
