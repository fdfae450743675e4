-- ===== src/Sock/Longest.antt =====
-- The longest message that src/rpc/rpc_protocol_handler.cc frames, on its way through a connection.
use tit_co.Base.{
  ℕ, zero, suc, ◌≤◌, ◌≡◌, refl, ap, ap₂, ◌∙◌, some, List, [], ◌∷◌, ◌++◌, length, take, drop,
  length-append, length-drop, arith,
}
use tit_co.Sock.{Round}
use tit_co.Sock.Streams.{flow, Fits, IsSteady, recvn_total}
use tit_co.Sock.Frames.{Fits-weaken, recvn-Fits, recv_message, recv_message_two}
use tit_co.Rpc.Message.{Codec, Protocol, serialize}
use tit_co.Rpc.Frame.{
  header, data_max_len, encode, atoi, bytes, Received, decode, message, recv_protocol,
}
use tit_co.Rpc.RoundTrip.{recv_sized_body, atoi-header}

module _ {A : Type 0} where
  take-front : (n : ℕ) (xs ys : List A) → n ≤ length xs → take n (xs ++ ys) ≡ take n xs
  take-front zero xs ys h = refl
  take-front (suc n) [] ys h = absurd (omega arith)
  take-front (suc n) (x ∷ xs) ys h = ap (λ r. x ∷ r) (take-front n xs ys (omega arith))

  drop-front : (n : ℕ) (xs ys : List A) → n ≤ length xs → drop n (xs ++ ys) ≡ drop n xs ++ ys
  drop-front zero xs ys h = refl
  drop-front (suc n) [] ys h = absurd (omega arith)
  drop-front (suc n) (x ∷ xs) ys h = drop-front n xs ys (omega arith)

pub longest_frame :
    (codec : Codec) (p : Protocol)
    → length (serialize codec p) ≡ data_max_len
    → encode codec p ≡ header 1000 ++ serialize codec p
unfolding encode header
longest_frame codec p h = ground (arith, ap header h)

header-parts :
    (body more : List ℕ)
    → (take 4 ((header 1000 ++ body) ++ more) ≡ header 1000)
      × (drop 4 ((header 1000 ++ body) ++ more) ≡ body ++ more)
unfolding header
header-parts body more = (refl, refl)

-- A serialisation of 10000 bytes, the longest that is accepted, is framed with the header of 1000.
-- When its frame arrives before `more`, in whatever pieces and with whatever waits and signals between
-- them, but no error, `RecvProtocol` returns what the parser makes of the first 1000 bytes, up to the
-- first zero byte among them, and the
-- other 9000 stay in the stream before `more`, where the next message is looked for. (The kernel
-- gives no more than it is asked for.)
pub longest_cut :
    (codec : Codec) (p : Protocol) (arrivals : List (Round (List ℕ))) (more : List ℕ)
    → length (serialize codec p) ≡ data_max_len
    → flow arrivals ≡ encode codec p ++ more
    → Fits 4 (1000 ∷ []) arrivals
    → IsSteady arrivals
    → let body = serialize codec p in
      (encode codec p ≡ header 1000 ++ body)
      × (left : List (Round (List ℕ))) × (recv_message codec arrivals
          ≡ some (message (decode codec (take 1000 body) 1000), left))
      × (flow left ≡ drop 1000 body ++ more)
      × (length (drop 1000 body) ≡ 9000)
longest_cut codec p arrivals more long fl fits steady =
    let body = serialize codec p in
    let frame = longest_frame codec p long in
    let stream : flow arrivals ≡ (header 1000 ++ body) ++ more = fl ∙ ap (λ l. l ++ more) frame in
    let (head, tail) = header-parts body more in
    let (g, e, gr, gb, gf, gs) =
      recvn_total 4 arrivals (omega arith) (Fits-weaken 4 1000 arrivals fits) steady
        (rw stream (unfold header in omega arith)) in
    let rest : flow g.rest ≡ body ++ more = gf ∙ ap (drop 4) stream ∙ tail in
    let (h, d, hr, hb, hf, hs) =
      recvn_total 1000 g.rest (omega arith) (recvn-Fits 4 1000 arrivals g fits steady e) gs
        (rw rest (omega (arith, long, length-append body more))) in
    let len : g.buf ≡ header 1000 = gb ∙ ap (take 4) stream ∙ head in
    let content : h.buf ≡ take 1000 body =
      hb ∙ ap (take 1000) rest ∙ take-front 1000 body more (omega (arith, long)) in
    let sized = atoi-header 1000 (omega arith) in
    (
      frame,
      h.rest,
      recv_message_two codec 1000 arrivals g h (omega arith) e gr (ap atoi len ∙ sized) d hr
          ∙ ap₂ (λ (x y : List ℕ). some (recv_protocol codec (bytes x) (bytes y), h.rest)) len
              content
          ∙ ap (λ (x : Received). some (x, h.rest))
              (recv_sized_body codec 1000 (header 1000) (take 1000 body) (omega arith) sized),
      hf ∙ ap (drop 1000) rest ∙ drop-front 1000 body more (omega (arith, long)),
      omega (arith, long, length-drop 1000 body),
    )
