-- ===== src/Sock/Streams.antt =====
-- What `recvn` and `send` of src/sock.cc do to the bytes of a connection.
use tit_co.Base.{
  ℕ, zero, suc, ◌-◌, ◌+◌, ◌≤◌, ◌<◌, ◌≡◌, refl, sym, ap, subst, ◌∙◌, ◌⊎◌, inl, inr, ◌==◌,
  if◌then◌else◌, Bool, true, false, Option, some, List, [], ◌∷◌, ◌++◌, length, take, drop,
  append_assoc, length-append, Bool-cases, arith,
}
use tit_co.Sock.{Round, gave, blocked, interrupted, refused, ok, minus, Got, recvn_loop, recvn}

-- The bytes that arrive, in order.
abbrev pub flow : List (Round (List ℕ)) → List ℕ
flow [] = []
flow (gave bytes ∷ rs) = bytes ++ flow rs
flow (blocked waited ∷ rs) = flow rs
flow (interrupted ∷ rs) = flow rs
flow (refused errno ∷ rs) = flow rs

-- `::recv` gives no more than it is asked for: `remain` at first, less after what it gave, and once
-- that is complete the sizes of the later reads.
abbrev pub Fits : ℕ → List ℕ → List (Round (List ℕ)) → Type 0
Fits remain later [] = Unit
Fits remain later (gave bytes ∷ rs) =
    (length bytes ≤ remain)
    × (if length bytes == remain
        then (elim later [ [] ↦ Unit {0} | n ∷ more ↦ Fits n more rs ])
        else Fits (remain - length bytes) later rs)
Fits remain later (blocked waited ∷ rs) = Fits remain later rs
Fits remain later (interrupted ∷ rs) = Fits remain later rs
Fits remain later (refused errno ∷ rs) = Fits remain later rs

pub Fits-more :
    (remain : ℕ) (later : List ℕ) (bytes : List ℕ) (rs : List (Round (List ℕ)))
    → Fits remain later (gave bytes ∷ rs)
    → (length bytes == remain) ≡ false
    → (length bytes ≤ remain) × Fits (remain - length bytes) later rs
Fits-more remain later bytes rs (f, fs) e = (
  f,
  subst
      (λ (b : Bool).
        if b
        then (elim later [ [] ↦ Unit {0} | n ∷ more ↦ Fits n more rs ])
        else Fits (remain - length bytes) later rs)
      e fs,
)

pub Fits-next :
    (remain n : ℕ) (bytes : List ℕ) (rs : List (Round (List ℕ)))
    → Fits remain (n ∷ []) (gave bytes ∷ rs)
    → (length bytes == remain) ≡ true
    → Fits n [] rs
Fits-next remain n bytes rs (f, fs) e =
    subst (λ (b : Bool). if b then Fits n [] rs else Fits (remain - length bytes) (n ∷ []) rs) e fs

no_bytes : (bytes : List ℕ) → length bytes ≡ 0 → bytes ≡ []
no_bytes [] h = refl
no_bytes (b ∷ bytes) h = absurd (omega arith)

recvn_loop-keeps :
    (n remain : ℕ) (buf : List ℕ) (rs : List (Round (List ℕ))) (g : Got)
    → recvn_loop n remain buf rs ≡ some g
    → g.buf ++ flow g.rest ≡ buf ++ flow rs
unfolding recvn_loop
recvn_loop-keeps n remain buf [] g e = absurd (cc)
recvn_loop-keeps n remain buf (gave bytes ∷ rs) g e = elim (Bool-cases (length bytes == remain)) [
  | inl all ↦ ground (arith, append_assoc buf bytes (flow rs))
  | inr part ↦ elim (Bool-cases (length bytes == 0)) [
    | inl end ↦ ground (arith, no_bytes bytes)
    | inr more ↦
        recvn_loop-keeps n (remain - length bytes) (buf ++ bytes) rs g (ground arith)
        ∙ append_assoc buf bytes (flow rs)
  ]
]
recvn_loop-keeps n remain buf (blocked true ∷ rs) g e = recvn_loop-keeps n remain buf rs g e
recvn_loop-keeps n remain buf (blocked false ∷ rs) g e = ground arith
recvn_loop-keeps n remain buf (interrupted ∷ rs) g e = recvn_loop-keeps n remain buf rs g e
recvn_loop-keeps n remain buf (refused errno ∷ rs) g e = ground arith

-- A read of `n` bytes ends with all of them, or with fewer, at the end of the stream or in an error.
pub data Ended (n : ℕ) (g : Got) : Type 0 where
  full : length g.buf ≡ n → g.ret ≡ ok n → Ended n g
  short : length g.buf < n → (g.ret ≡ ok 0) ⊎ (g.ret ≡ minus) → Ended n g

recvn_loop-Ended :
    (n remain : ℕ) (buf : List ℕ) (rs : List (Round (List ℕ))) (g : Got)
    → 0 < remain
    → Fits remain [] rs
    → length buf + remain ≡ n
    → recvn_loop n remain buf rs ≡ some g
    → Ended n g
unfolding recvn_loop
recvn_loop-Ended n remain buf [] g p f h e = absurd (cc)
recvn_loop-Ended n remain buf (gave bytes ∷ rs) g p f h e =
    elim (Bool-cases (length bytes == remain)) [
      | inl all ↦ full (ground (arith, length-append buf bytes)) (ground arith)
      | inr part ↦ elim (Bool-cases (length bytes == 0)) [
        | inl end ↦ short (ground arith) (inl (ground arith))
        | inr more ↦
            let (le, fs) = Fits-more remain [] bytes rs f part in
            recvn_loop-Ended n (remain - length bytes) (buf ++ bytes) rs g (ground arith) fs
              (ground (arith, length-append buf bytes)) (ground arith)
      ]
    ]
recvn_loop-Ended n remain buf (blocked true ∷ rs) g p f h e =
    recvn_loop-Ended n remain buf rs g p f h e
recvn_loop-Ended n remain buf (blocked false ∷ rs) g p f h e =
    short (ground arith) (inr (ground arith))
recvn_loop-Ended n remain buf (interrupted ∷ rs) g p f h e =
    recvn_loop-Ended n remain buf rs g p f h e
recvn_loop-Ended n remain buf (refused errno ∷ rs) g p f h e =
    short (ground arith) (inr (ground arith))

-- When `recvn` returns, what it wrote to the buffer and what still comes make up what the connection
-- delivers, in order, and it has all `n` bytes and says so, or it has fewer and returns 0 or -1.
-- (The kernel gives no more than it is asked for.)
pub recvn_lem :
    (n : ℕ) (rs : List (Round (List ℕ))) (g : Got)
    → 0 < n
    → Fits n [] rs
    → recvn n rs ≡ some g
    → (g.buf ++ flow g.rest ≡ flow rs) × Ended n g
unfolding recvn
recvn_lem n rs g p f e =
    (recvn_loop-keeps n n [] rs g e, recvn_loop-Ended n n [] rs g p f (omega arith) e)

-- Nothing goes wrong: no error, no time-out, no end of the stream.
abbrev pub IsSteady : List (Round (List ℕ)) → Type 0
IsSteady [] = Unit
IsSteady (gave bytes ∷ rs) = (0 < length bytes) × IsSteady rs
IsSteady (blocked waited ∷ rs) = (waited ≡ true) × IsSteady rs
IsSteady (interrupted ∷ rs) = IsSteady rs
IsSteady (refused errno ∷ rs) = ⊥

-- A read that finishes, with what it leaves.
abbrev Finished : ℕ → ℕ → Option Got → Type 0
Finished n count r =
    (g : Got) × (r ≡ some g) × (g.ret ≡ ok n) × (length g.buf ≡ count) × IsSteady g.rest

recvn_loop-Finished :
    (n remain : ℕ) (buf : List ℕ) (rs : List (Round (List ℕ)))
    → 0 < remain
    → Fits remain [] rs
    → IsSteady rs
    → remain ≤ length (flow rs)
    → Finished n (length buf + remain) (recvn_loop n remain buf rs)
unfolding recvn_loop
recvn_loop-Finished n remain buf [] p f s h = absurd (omega arith)
recvn_loop-Finished n remain buf (gave bytes ∷ rs) p f (s, ss) h =
    elim (Bool-cases (length bytes == remain)) [
      | inl all ↦ (
        record { ret = ok n; buf = buf ++ bytes; rest = rs },
        ground arith,
        refl,
        ground (arith, length-append buf bytes),
        ss,
      )
      | inr more ↦
          let (le, fs) = Fits-more remain [] bytes rs f more in
          let (g, e, r, l, t) =
            recvn_loop-Finished n (remain - length bytes) (buf ++ bytes) rs (ground arith) fs ss
              (ground (arith, length-append bytes (flow rs))) in
          (g, ground arith, r, ground (arith, length-append buf bytes), t)
    ]
recvn_loop-Finished n remain buf (blocked true ∷ rs) p f (s, ss) h =
    recvn_loop-Finished n remain buf rs p f ss h
recvn_loop-Finished n remain buf (blocked false ∷ rs) p f (s, ss) h = absurd (cc)
recvn_loop-Finished n remain buf (interrupted ∷ rs) p f s h =
    recvn_loop-Finished n remain buf rs p f s h
recvn_loop-Finished n remain buf (refused errno ∷ rs) p f s h = absurd s

append-take :
    (n : ℕ) (xs ys zs : List ℕ)
    → xs ++ ys ≡ zs
    → length xs ≡ n
    → (xs ≡ take n zs) × (ys ≡ drop n zs)
append-take zero [] ys zs e h = (refl, e)
append-take zero (x ∷ xs) ys zs e h = absurd (omega arith)
append-take (suc n) [] ys zs e h = absurd (omega arith)
append-take (suc n) (x ∷ xs) ys zs e h =
    rw (sym e)
      (let (a, b) = append-take n xs ys (xs ++ ys) refl (omega arith) in (ap (λ r. x ∷ r) a, b))

-- Over a connection that delivers at least `n` bytes, in whatever pieces and with whatever waits and
-- signals between them, but no error, time-out or end before them, `recvn` returns, with `n`, the
-- first `n` bytes, and the others still to come. (The kernel gives no more than it is asked for.)
pub recvn_total :
    (n : ℕ) (rs : List (Round (List ℕ)))
    → 0 < n
    → Fits n [] rs
    → IsSteady rs
    → n ≤ length (flow rs)
    → (g : Got) × (recvn n rs ≡ some g)
      × (g.ret ≡ ok n)
      × (g.buf ≡ take n (flow rs))
      × (flow g.rest ≡ drop n (flow rs))
      × IsSteady g.rest
unfolding recvn
recvn_total n rs p f s h =
    let (g, e, r, l, t) = recvn_loop-Finished n n [] rs p f s h in
    let (a, b) =
      append-take n g.buf (flow g.rest) (flow rs) (recvn_loop-keeps n n [] rs g e)
        (omega (arith, l)) in
    (g, e, r, a, b, t)
