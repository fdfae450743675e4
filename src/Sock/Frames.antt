-- ===== src/Sock/Frames.antt =====
-- `RecvProtocol` of src/rpc/rpc_protocol_handler.cc over the socket of src/sock.cc: the two calls
-- of `Recvn` on one connection, and a message on its way from a sender to a receiver.
use mathlib.Core.Option
use tit_co.Base.{
  ℕ, ◌-◌, ◌<◌, ◌≡◌, sym, subst, inl, inr, ◌==◌, ◌||◌, if◌then◌else◌, Bool, true, false, Option,
  some, List, [], ◌∷◌, ◌++◌, length, Bool-cases, arith,
}
use tit_co.Sock.{Round, gave, blocked, interrupted, refused, ok, minus, Got, recvn_loop, recvn}
use tit_co.Sock.Streams.{Fits, Fits-more, Fits-next, IsSteady}
use tit_co.Rpc.Message.{Codec}
use tit_co.Rpc.Frame.{atoi, Recv, bytes, closed, error, Received, recv_protocol}

-- The result of `Recvn`, as `RecvProtocol` tells the cases apart.
abbrev as_recv : Got → Recv
as_recv g = elim g.ret [ ok n ↦ (if n == 0 then closed else bytes g.buf) | minus ↦ error ]

-- Past the first call: the second is made if the length is positive.
abbrev after_length :
    Codec → Recv → Bool × ℕ → List (Round (List ℕ)) → Option (Received × List (Round (List ℕ)))
after_length codec len (negative, n) rs =
    let second =
      Option.map (λ (g : Got). (recv_protocol codec len (as_recv g), g.rest)) (recvn n rs) in
    if n == 0 || negative then some (recv_protocol codec len error, rs) else second

abbrev after_header :
    Codec → Recv → List (Round (List ℕ)) → Option (Received × List (Round (List ℕ)))
after_header codec (bytes len) rs = after_length codec (bytes len) (atoi len) rs
after_header codec closed rs = some (recv_protocol codec closed error, rs)
after_header codec error rs = some (recv_protocol codec error error, rs)

-- `RecvProtocol` on a connection, with the rounds that it leaves.
unfoldable pub recv_message :
    Codec → List (Round (List ℕ)) → Option (Received × List (Round (List ℕ)))
recv_message codec rs = Option.bind (recvn 4 rs) (λ g. after_header codec (as_recv g) g.rest)

pub Fits-weaken : (m n : ℕ) (rs : List (Round (List ℕ))) → Fits m (n ∷ []) rs → Fits m [] rs
Fits-weaken m n [] f = tt
Fits-weaken m n (gave bs ∷ rs) f = elim (Bool-cases (length bs == m)) [
  | inl all ↦
      (f.0, subst (λ (b : Bool). if b then Unit {0} else Fits (m - length bs) [] rs) (sym all) tt)
  | inr more ↦
      let (le, fs) = Fits-more m (n ∷ []) bs rs f more in
      (
        le,
        subst (λ (b : Bool). if b then Unit {0} else Fits (m - length bs) [] rs) (sym more)
            (Fits-weaken (m - length bs) n rs fs),
      )
]
Fits-weaken m n (blocked waited ∷ rs) f = Fits-weaken m n rs f
Fits-weaken m n (interrupted ∷ rs) f = Fits-weaken m n rs f
Fits-weaken m n (refused errno ∷ rs) f = Fits-weaken m n rs f

recvn_loop-Fits :
    (m remain n : ℕ) (buf : List ℕ) (rs : List (Round (List ℕ))) (g : Got)
    → Fits remain (n ∷ []) rs
    → IsSteady rs
    → recvn_loop m remain buf rs ≡ some g
    → Fits n [] g.rest
unfolding recvn_loop
recvn_loop-Fits m remain n buf [] g f s e = absurd (cc)
recvn_loop-Fits m remain n buf (gave bs ∷ rs) g f (s, ss) e =
    elim (Bool-cases (length bs == remain)) [
      | inl all ↦
          let here : rs ≡ g.rest = ground arith in
          subst (Fits n []) here (Fits-next remain n bs rs f all)
      | inr more ↦
          let (le, fs) = Fits-more remain (n ∷ []) bs rs f more in
          recvn_loop-Fits m (remain - length bs) n (buf ++ bs) rs g fs ss (ground arith)
    ]
recvn_loop-Fits m remain n buf (blocked true ∷ rs) g f (s, ss) e =
    recvn_loop-Fits m remain n buf rs g f ss e
recvn_loop-Fits m remain n buf (blocked false ∷ rs) g f (s, ss) e = absurd (cc)
recvn_loop-Fits m remain n buf (interrupted ∷ rs) g f s e =
    recvn_loop-Fits m remain n buf rs g f s e
recvn_loop-Fits m remain n buf (refused errno ∷ rs) g f s e = absurd s

pub recvn-Fits :
    (m n : ℕ) (rs : List (Round (List ℕ))) (g : Got)
    → Fits m (n ∷ []) rs
    → IsSteady rs
    → recvn m rs ≡ some g
    → Fits n [] g.rest
unfolding recvn
recvn-Fits m n rs g f s e = recvn_loop-Fits m m n [] rs g f s e

-- The two calls, where the first gives a header and the second what it announces.
pub recv_message_two :
    (codec : Codec) (n : ℕ) (rs : List (Round (List ℕ))) (g h : Got)
    → 0 < n
    → recvn 4 rs ≡ some g
    → g.ret ≡ ok 4
    → atoi g.buf ≡ (false, n)
    → recvn n g.rest ≡ some h
    → h.ret ≡ ok n
    → recv_message codec rs ≡ some (recv_protocol codec (bytes g.buf) (bytes h.buf), h.rest)
unfolding recv_message Option.bind recv_protocol
recv_message_two codec n rs g h pos e r a d q = rw (e, r, a, d) (ground arith)
