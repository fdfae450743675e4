-- ===== src/Rpc/Limits.antt =====
-- Where the framing of src/rpc/rpc_protocol_handler.cc falls short of a round trip.
use tit_co.Base.{
  ℕ, ◌+◌, ◌*◌, ◌≤◌, ◌<◌, ◌≡◌, refl, ap, ◌∙◌, true, some, List, [], ◌∷◌, ◌++◌, length, length-append,
  arith,
}
use tit_co.Rpc.Message.{Codec, Protocol, serialize, deserialize}
use tit_co.Rpc.Frame.{
  header, data_max_len, encode, digits, atoi, Recv, bytes, c_string, decode, negative_size,
  recv_protocol, failed, send_protocol,
}
use tit_co.Rpc.RoundTrip.{digits-digit, first_digit, IsText}

c_string_cut : (front rest : List ℕ) → IsText front → c_string (front ++ 0 ∷ rest) ≡ c_string front
unfolding c_string IsText
c_string_cut [] rest h = refl
c_string_cut (c ∷ cs) rest (h, hs) = ground (arith, c_string_cut cs rest hs)

-- What follows a zero byte in the bytes received does not reach the parser, whatever the size that
-- the header announced.
pub decode_cut :
    (codec : Codec) (front rest : List ℕ) (n m : ℕ)
    → IsText front
    → decode codec (front ++ 0 ∷ rest) n ≡ decode codec front m
unfolding decode
decode_cut codec front rest n m h = ap (deserialize codec) (c_string_cut front rest h)

length-header_le : (n : ℕ) → length (header n) ≡ 4
unfolding header
length-header_le n = ground arith

length-frame :
    (codec : Codec) (p : Protocol)
    → length (serialize codec p) ≤ data_max_len
    → length (encode codec p) ≡ 4 + length (serialize codec p)
unfolding encode
length-frame codec p h = ground (
  arith,
  length-header_le (length (serialize codec p)),
  length-append (header (length (serialize codec p))) (serialize codec p),
)

-- Every message that can be framed is reported as sent when the socket fails.
pub failure_hidden :
    (codec : Codec) (p : Protocol)
    → length (serialize codec p) ≤ data_max_len
    → send_protocol codec (some p) failed ≡ (true, encode codec p)
unfolding send_protocol
failure_hidden codec p h = ground (arith, length-frame codec p h)

digits-three :
    (a b c : ℕ)
    → a < 10
    → b < 10
    → c < 10
    → digits 0 ((b'0' + a) ∷ (b'0' + b) ∷ (b'0' + c) ∷ []) ≡ (a * 10 + b) * 10 + c
unfolding digits
digits-three a b c ha hb hc =
    first_digit a ((b'0' + b) ∷ (b'0' + c) ∷ []) ha
    ∙ digits-digit a b ((b'0' + c) ∷ []) hb
    ∙ digits-digit (a * 10 + b) c [] hc

atoi-minus : (cs : List ℕ) → atoi (b'-' ∷ cs) ≡ (true, digits 0 cs)
unfolding atoi
atoi-minus cs = refl

minus_sized :
    (codec : Codec) (n : ℕ) (len : List ℕ) (body : Recv)
    → 0 < n
    → atoi len ≡ (true, n)
    → recv_protocol codec (bytes len) body ≡ negative_size
unfolding recv_protocol
minus_sized codec n len body h e = rw e (ground arith)

-- A header that is a minus sign and three digits, not all of them zero, makes the receiver ask for an
-- array of negative size.
pub negative_header :
    (codec : Codec) (a b c : ℕ) (body : Recv)
    → a < 10
    → b < 10
    → c < 10
    → 0 < a + b + c
    → recv_protocol codec (bytes (b'-' ∷ (b'0' + a) ∷ (b'0' + b) ∷ (b'0' + c) ∷ [])) body
      ≡ negative_size
negative_header codec a b c body ha hb hc pos =
    minus_sized codec ((a * 10 + b) * 10 + c) (b'-' ∷ (b'0' + a) ∷ (b'0' + b) ∷ (b'0' + c) ∷ [])
      body (omega arith)
      (atoi-minus ((b'0' + a) ∷ (b'0' + b) ∷ (b'0' + c) ∷ [])
        ∙ ap (λ (v : ℕ). (true, v)) (digits-three a b c ha hb hc))
