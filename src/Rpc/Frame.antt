-- ===== src/Rpc/Frame.antt =====
-- src/rpc/rpc_protocol_handler.cc: messages framed by a length of four decimal digits.
use tit_co.Base.{
  ℕ, ◌+◌, ◌-◌, ◌*◌, ◌/◌, ◌%◌, Bool, true, false, ◌&&◌, ◌||◌, ltb, leb, ◌==◌, if◌then◌else◌, Option,
  none, some, List, [], ◌∷◌, ◌++◌, length, take,
}
use tit_co.Base.Word.{u32}
use tit_co.Rpc.Message.{Codec, Protocol, serialize, deserialize}

abbrev pub data_max_len : ℕ
data_max_len = 10000

abbrev pub data_len_size : ℕ
data_len_size = 4

abbrev pub digit : ℕ → ℕ
digit d = b'0' + d % 10

-- What "%04d" prints for a number below 100000.
abbrev pub four_digits : ℕ → List ℕ
four_digits n = digit (n / 1000) ∷ digit (n / 100) ∷ digit (n / 10) ∷ digit n ∷ []

abbrev format_04d : ℕ → List ℕ
format_04d n = if ltb n 10000 then four_digits n else digit (n / 10000) ∷ four_digits n

-- `snprintf(data_len, 5, "%04d", buf_len)` keeps four characters.
unfoldable pub header : ℕ → List ℕ
header n = take data_len_size (format_04d n)

-- `Encode`
unfoldable pub encode : Codec → Protocol → List ℕ
unfolding header serialize
encode codec p =
    let buf = serialize codec p in
    if ltb data_max_len (length buf) then [] else header (length buf) ++ buf

-- `atoi`: spaces, a sign, digits up to the first other character. The sign is `true` for a minus.
abbrev is_space : ℕ → Bool
is_space c = c == b' ' || leb 9 c && leb c 13

abbrev is_digit : ℕ → Bool
is_digit c = leb b'0' c && leb c b'9'

unfoldable pub digits : ℕ → List ℕ → ℕ
digits n [] = n
digits n (c ∷ cs) = let more = digits (n * 10 + (c - b'0')) cs in if is_digit c then more else n

abbrev signed : List ℕ → Bool × ℕ
unfolding digits
signed [] = (false, 0)
signed (c ∷ cs) =
    if c == b'-'
    then (true, digits 0 cs)
    else (if c == b'+' then (false, digits 0 cs) else (false, digits 0 (c ∷ cs)))

unfoldable pub atoi : List ℕ → Bool × ℕ
unfolding signed digits
atoi [] = (false, 0)
atoi (c ∷ cs) = let more = atoi cs in if is_space c then more else signed (c ∷ cs)

-- What `Recvn` of the socket came to: all the bytes that were asked for, the end of the stream, or
-- an error.
pub data Recv : Type 0 where
  bytes : List ℕ → Recv
  closed : Recv
  error : Recv

-- `std::string(buf)` reads up to the first zero byte.
unfoldable pub c_string : List ℕ → List ℕ
c_string [] = []
c_string (c ∷ cs) = if c == 0 then [] else c ∷ c_string cs

-- `Decode(buf, size)`: the size is not used.
unfoldable pub decode : Codec → List ℕ → ℕ → Protocol
unfolding c_string deserialize
decode codec buf size = deserialize codec (c_string buf)

-- `RecvProtocol`: no message, and whether the socket is closed; a message; or, for a negative
-- length, an array of negative size.
pub data Received : Type 0 where
  nothing : Bool → Received
  message : Protocol → Received
  negative_size : Received

abbrev recv_body : Codec → ℕ → Recv → Received
unfolding decode
recv_body codec n (bytes buf) = message (decode codec buf n)
recv_body codec n closed = nothing false
recv_body codec n error = nothing false

abbrev recv_sized : Codec → Bool × ℕ → Recv → Received
unfolding recv_body
recv_sized codec (minus, n) body =
    if n == 0 then nothing false else (if minus then negative_size else recv_body codec n body)

-- The answers of the two calls of `Recvn`; the second is made only if the first gave a length. That
-- it asks for that length is the matter of `recv_message` of Sock/Frames; `Decode` does not look at it.
unfoldable pub recv_protocol : Codec → Recv → Recv → Received
unfolding atoi recv_sized
recv_protocol codec closed body = nothing true
recv_protocol codec error body = nothing false
recv_protocol codec (bytes len) body = recv_sized codec (atoi len) body

-- What `Send` of the socket returns: the number of bytes, or -1.
pub data Sent : Type 0 where
  sent : ℕ → Sent
  failed : Sent

-- The `int` beside a `uint`.
abbrev as_uint : Sent → ℕ
as_uint (sent n) = n
as_uint failed = u32 - 1

-- `SendProtocol`: whether it reports success, and what it hands to `Send`, whose answer is `answer`.
unfoldable pub send_protocol : Codec → Option Protocol → Sent → Bool × List ℕ
unfolding encode
send_protocol codec none answer = (false, [])
send_protocol codec (some p) answer =
    let buf = encode codec p in
    if length buf == 0
    then (false, [])
    else (if ltb (as_uint answer) (length buf) then (false, buf) else (true, buf))
