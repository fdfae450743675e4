-- ===== src/Rpc/RoundTrip.antt =====
-- What a peer receives of a message that `SendProtocol` framed, and what the caller is told.
use tit_co.Base.{
  ℕ, ◌+◌, ◌-◌, ◌*◌, ◌/◌, ◌%◌, ◌<◌, ◌≡◌, refl, sym, ap, ◌∙◌, true, false, some, List, [], ◌∷◌, ◌++◌,
  length, take, drop, All, arith,
}
use tit_co.Rpc.Message.{
  Codec, Protocol, serialize, deserialize, IsMade, IsUtf8, deserialize-serialize,
}
use tit_co.Rpc.Frame.{
  header, four_digits, digit, encode, digits, atoi, Received, bytes, c_string, decode, message,
  recv_protocol, sent, send_protocol,
}

minus_zero : (d : ℕ) → (b'0' + d) - b'0' ≡ d
minus_zero d = omega arith

pub digits-digit :
    (m d : ℕ) (cs : List ℕ) → d < 10 → digits m ((b'0' + d) ∷ cs) ≡ digits (m * 10 + d) cs
unfolding digits
digits-digit m d cs h = rw (minus_zero d) (ground arith)

pub first_digit : (d : ℕ) (cs : List ℕ) → d < 10 → digits 0 ((b'0' + d) ∷ cs) ≡ digits d cs
first_digit d cs h = digits-digit 0 d cs h ∙ ap (λ (m : ℕ). digits m cs) (omega arith)

pub atoi-digit :
    (d : ℕ) (cs : List ℕ) → d < 10 → atoi ((b'0' + d) ∷ cs) ≡ (false, digits 0 ((b'0' + d) ∷ cs))
unfolding atoi
atoi-digit d cs h = ground arith

digits-four :
    (a b c d : ℕ)
    → a < 10
    → b < 10
    → c < 10
    → d < 10
    → digits 0 ((b'0' + a) ∷ (b'0' + b) ∷ (b'0' + c) ∷ (b'0' + d) ∷ [])
      ≡ ((a * 10 + b) * 10 + c) * 10 + d
unfolding digits
digits-four a b c d ha hb hc hd =
    first_digit a ((b'0' + b) ∷ (b'0' + c) ∷ (b'0' + d) ∷ []) ha
    ∙ digits-digit a b ((b'0' + c) ∷ (b'0' + d) ∷ []) hb
    ∙ digits-digit (a * 10 + b) c ((b'0' + d) ∷ []) hc
    ∙ digits-digit ((a * 10 + b) * 10 + c) d [] hd

by_digits :
    (n : ℕ) → n < 10000 → ((n / 1000 % 10 * 10 + n / 100 % 10) * 10 + n / 10 % 10) * 10 + n % 10 ≡ n
by_digits n h = omega arith

small_digit : (n : ℕ) → n % 10 < 10
small_digit n = omega arith

pub printed : (n : ℕ) → n < 10000 → header n ≡ four_digits n
unfolding header
printed n h = ground arith

-- The header of a length of at most four digits is read back as that length.
pub atoi-header : (n : ℕ) → n < 10000 → atoi (header n) ≡ (false, n)
atoi-header n h =
    ap atoi (printed n h)
    ∙ atoi-digit (n / 1000 % 10) (digit (n / 100) ∷ digit (n / 10) ∷ digit n ∷ [])
        (small_digit (n / 1000))
    ∙ ap (λ (v : ℕ). (false, v))
        (digits-four (n / 1000 % 10) (n / 100 % 10) (n / 10 % 10) (n % 10) (small_digit (n / 1000))
            (small_digit (n / 100)) (small_digit (n / 10)) (small_digit n)
          ∙ by_digits n h)

-- No zero byte.
unfoldable pub IsText : List ℕ → Type 0
IsText cs = All (λ c. 0 < c) cs

pub c_string_text : (cs : List ℕ) → IsText cs → c_string cs ≡ cs
unfolding c_string IsText
c_string_text [] h = refl
c_string_text (c ∷ cs) (h, hs) = ground (arith, c_string_text cs hs)

length-header : (n : ℕ) → n < 10000 → length (header n) ≡ 4
length-header n h = ap length (printed n h)

pub encode_frame :
    (codec : Codec) (p : Protocol)
    → length (serialize codec p) < 10000
    → encode codec p ≡ four_digits (length (serialize codec p)) ++ serialize codec p
unfolding encode
encode_frame codec p h = ground (arith, printed (length (serialize codec p)))

pub length-encode :
    (codec : Codec) (p : Protocol)
    → length (serialize codec p) < 10000
    → length (encode codec p) ≡ 4 + length (serialize codec p)
length-encode codec p h = rw (encode_frame codec p h) (omega arith)

take-encode :
    (codec : Codec) (p : Protocol)
    → length (serialize codec p) < 10000
    → take 4 (encode codec p) ≡ header (length (serialize codec p))
take-encode codec p h =
    ap (take 4) (encode_frame codec p h) ∙ sym (printed (length (serialize codec p)) h)

drop-encode :
    (codec : Codec) (p : Protocol)
    → length (serialize codec p) < 10000
    → drop 4 (encode codec p) ≡ serialize codec p
drop-encode codec p h = ap (drop 4) (encode_frame codec p h)

pub recv_sized_body :
    (codec : Codec) (n : ℕ) (len buf : List ℕ)
    → 0 < n
    → atoi len ≡ (false, n)
    → recv_protocol codec (bytes len) (bytes buf) ≡ message (decode codec buf n)
unfolding recv_protocol
recv_sized_body codec n len buf h e = rw e (ground arith)

pub decode_text :
    (codec : Codec) (p : Protocol) (n : ℕ)
    → IsMade p
    → IsUtf8 codec p
    → IsText (serialize codec p)
    → decode codec (serialize codec p) n ≡ p
unfolding decode
decode_text codec p n made utf8 text =
    rw (c_string_text (serialize codec p) text) (deserialize-serialize codec p made utf8)

-- The peer reads four bytes and then the rest.
unfoldable pub transfer : Codec → Protocol → Received
unfolding encode recv_protocol
transfer codec p =
    let frame = encode codec p in recv_protocol codec (bytes (take 4 frame)) (bytes (drop 4 frame))

-- A message fits a frame.
pub record Fits (codec : Codec) (p : Protocol) : Type 0 where
  pub positive : 0 < length (serialize codec p)
  pub small : length (serialize codec p) < 10000
  pub text : IsText (serialize codec p)

pub transfer_lem :
    (codec : Codec) (p : Protocol)
    → Fits codec p
    → transfer codec p ≡ message (deserialize codec (serialize codec p))
unfolding transfer decode
transfer_lem codec p fits =
    let n = length (serialize codec p) in
    rw (take-encode codec p fits.small, drop-encode codec p fits.small)
      (recv_sized_body codec n (header n) (serialize codec p) fits.positive
          (atoi-header n fits.small)
        ∙ ap (λ cs. message (deserialize codec cs)) (c_string_text (serialize codec p) fits.text))

-- A message as the program makes it, whose service name, if it has one, is in UTF-8 and whose
-- serialisation has between 1 and 9999 bytes and no zero
-- byte: the peer, which reads four bytes and then the rest, receives that message, and the sender,
-- whose frame the socket takes whole, reports success.
pub recv-send :
    (codec : Codec) (p : Protocol)
    → IsMade p
    → IsUtf8 codec p
    → 0 < length (serialize codec p)
    → length (serialize codec p) < 10000
    → IsText (serialize codec p)
    → (send_protocol codec (some p) (sent (length (encode codec p))) ≡ (true, encode codec p))
      × (recv_protocol codec (bytes (take 4 (encode codec p))) (bytes (drop 4 (encode codec p)))
          ≡ message p)
unfolding send_protocol transfer
recv-send codec p made utf8 pos small text = (
  ground (arith, length-encode codec p small),
  transfer_lem codec p (record { positive = pos; small = small; text = text })
      ∙ ap message (deserialize-serialize codec p made utf8),
)
