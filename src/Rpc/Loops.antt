-- ===== src/Rpc/Loops.antt =====
-- src/rpc/rpc_client.cc: the two loops of a client, which send the requests of all calls and hand
-- out the answers.
use tit_co.Base.{
  map, ℕ, Bool, true, false, if◌then◌else◌, ◌≡◌, ◌≢◌, ◌<◌, refl, ap, Option, none, some, List, [],
  ◌∷◌, ◌++◌, length, All, arith,
}
use tit_co.Rpc.Message.{Codec, Protocol, serialize}
use tit_co.Rpc.Frame.{
  Sent, encode, send_protocol, Received, nothing, message, negative_size, data_max_len,
}
use tit_co.Rpc.Client.{RpcClient, receive}

-- A round of `SendLoop`: what came out of the channel, the scheduler's flag, and what `Send` of the
-- socket answers.
pub record Sending : Type 0 where
  pub protocol : Option Protocol
  pub timed_out : Bool
  pub answer : Sent

-- `SendProtocol` hands no empty block to `Send`.
abbrev pub hand : List ℕ → List (List ℕ) → List (List ℕ)
hand [] blocks = blocks
hand (c ∷ cs) blocks = (c ∷ cs) ∷ blocks

-- The loop, by its rounds: the blocks it hands to `Send`, and whether it has ended.
unfoldable pub send_loop : Codec → List Sending → List (List ℕ) × Bool
unfolding send_protocol
send_loop codec [] = ([], false)
send_loop codec (r ∷ rs) =
    let (ok, block) = send_protocol codec r.protocol r.answer in
    let (blocks, ended) = send_loop codec rs in
    if r.timed_out
    then (blocks, ended)
    else (if ok then (hand block blocks, ended) else (hand block [], true))

-- `RecvLoop`, by what `RecvProtocol` returns: the channels that get an answer, in order, the
-- client, and whether the loop has ended.
unfoldable pub recv_loop : RpcClient → List Received → List (Option ℕ × Protocol) × RpcClient × Bool
unfolding receive
recv_loop c [] = ([], c, false)
recv_loop c (nothing closes ∷ rs) = ([], c, true)
recv_loop c (negative_size ∷ rs) = ([], c, true)
recv_loop c (message p ∷ rs) =
    let (channel, next) = receive c p.req_id in
    let (given, last, ended) = recv_loop next rs in ((channel, p) ∷ given, last, ended)

-- A round whose message goes out whole.
abbrev pub IsSent : Codec → Sending → Type 0
IsSent codec r = (r.timed_out ≡ false) × ((send_protocol codec r.protocol r.answer).0 ≡ true)

abbrev pub blocks_of : Codec → List Sending → List (List ℕ)
blocks_of codec [] = []
blocks_of codec (r ∷ rs) = (send_protocol codec r.protocol r.answer).1 ∷ blocks_of codec rs

too_long :
    (codec : Codec) (long : Protocol) (answer : Sent)
    → data_max_len < length (serialize codec long)
    → send_protocol codec (some long) answer ≡ (false, [])
unfolding send_protocol encode
too_long codec long answer big = ground arith

hand_sent :
    (codec : Codec) (p : Option Protocol) (answer : Sent) (blocks : List (List ℕ))
    → (send_protocol codec p answer).0 ≡ true
    → hand (send_protocol codec p answer).1 blocks ≡ (send_protocol codec p answer).1 ∷ blocks
unfolding send_protocol
hand_sent codec none answer blocks ok = absurd (cc)
hand_sent codec (some p) answer blocks ok = ground arith

-- Requests that go out are sent in the order of the calls. The first that is too long for a frame
-- ends the loop: nothing of it is sent, nor of any later call.
pub send_loop_stops :
    (codec : Codec) (before : List Sending) (long : Protocol) (r : Sending) (after : List Sending)
    → All (IsSent codec) before
    → r.protocol ≡ some long
    → r.timed_out ≡ false
    → data_max_len < length (serialize codec long)
    → send_loop codec (before ++ (r ∷ after)) ≡ (blocks_of codec before, true)
unfolding send_loop
send_loop_stops codec [] long r after ok p t big = rw (t, p, too_long codec long r.answer big) refl
send_loop_stops codec (b ∷ before) long r after ((bt, bs), ok) p t big =
    rw (bt, bs, send_loop_stops codec before long r after ok p t big)
      (ap (λ (l : List (List ℕ)). (l, true))
        (hand_sent codec b.protocol b.answer (blocks_of codec before) bs))

-- An answer to another call than `req_id`.
abbrev pub IsOther : ℕ → Protocol → Type 0
IsOther req_id p = p.req_id ≢ req_id

-- Nothing of this goes to a channel.
abbrev pub Misses : ℕ → Option ℕ × Protocol → Type 0
Misses channel (to, p) = to ≢ some channel

-- The channel is registered for this call and for no other.
abbrev pub IsOnly : RpcClient → ℕ → ℕ → Type 0
IsOnly c id channel =
    (c.request_map id ≡ some channel) × ((i : ℕ) → c.request_map i ≡ some channel → i ≡ id)

receive-IsOnly :
    (c : RpcClient) (id channel r : ℕ)
    → IsOnly c id channel
    → r ≢ id
    → IsOnly (receive c r).1 id channel
unfolding receive
receive-IsOnly c id channel r (here, only) ne = (ground arith, λ i e. ground (arith, only i))

-- The loop of answers hands them out in their order up to the first message that it cannot read,
-- and then ends. A call that has not been answered by then stays registered, and nothing has come
-- to its channel; nothing will, since the loop has ended.
pub recv_loop_ends :
    (ps : List Protocol) (c : RpcClient) (id channel : ℕ) (closes : Bool) (after : List Received)
    → IsOnly c id channel
    → All (IsOther id) ps
    → let (given, last, ended) = recv_loop c (map message ps ++ (nothing closes ∷ after)) in
      (map (λ g. g.1) given ≡ ps)
      × All (Misses channel) given
      × (last.request_map id ≡ some channel)
      × (ended ≡ true)
unfolding recv_loop
recv_loop_ends [] c id channel closes after only others = (refl, tt, only.0, refl)
recv_loop_ends (p ∷ ps) c id channel closes after only (ne, others) =
    let next = (receive c p.req_id).1 in
    let (same, missed, still, over) =
      recv_loop_ends ps next id channel closes after (receive-IsOnly c id channel p.req_id only ne)
        others in
    (ap (λ l. p ∷ l) same, (λ e. ne (only.1 p.req_id e), missed), still, over)
