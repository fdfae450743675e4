-- ===== src/Sock/Tests.antt =====
-- The theorems on sockets at concrete connections.
use tit_co.Base.{
  zero, suc, ◌+◌, ◌++◌, append_assoc, ◌∙◌, replicate, length-replicate, length-take, length-drop, ℕ,
  ◌≡◌, refl, sym, ap, true, some, List, [], ◌∷◌, length, take, drop, arith,
}
use tit_co.Sock.{
  Round, gave, blocked, interrupted, refused, ok, minus, Got, recvn_loop, recvn, Put, send_loop,
  send,
}
use tit_co.Rpc.Frame.{encode, message}
use tit_co.Rpc.Plain.{plain_codec, length-plain, hello_body}
use tit_co.Sock.Frames.{recv_message}
use tit_co.Sock.Longest.{longest_frame, longest_cut}
use tit_co.Rpc.Message.{heart_beat, Protocol, create, serialize}
use tit_co.Rpc.Frame.{header, decode}
use tit_co.Sock.Streams.{flow, Fits, IsSteady, recvn_total}
use tit_co.Sock.Sends.{send_total}

-- Five bytes in three pieces.
abbrev pieces : List (Round (List ℕ))
pieces =
    gave (1 ∷ 2 ∷ [])
    ∷ blocked true
    ∷ gave (3 ∷ [])
    ∷ interrupted
    ∷ gave (4 ∷ [])
    ∷ gave (5 ∷ [])
    ∷ []

abbrev four_read : Got
four_read = record { ret = ok 4; buf = 1 ∷ 2 ∷ 3 ∷ 4 ∷ []; rest = gave (5 ∷ []) ∷ [] }

recvn-pieces : recvn 4 pieces ≡ some four_read
unfolding recvn recvn_loop
recvn-pieces = refl

recvn_total_example :
    (g : Got) × (recvn 4 pieces ≡ some g)
    × (g.ret ≡ ok 4)
    × (g.buf ≡ take 4 (flow pieces))
    × (flow g.rest ≡ drop 4 (flow pieces))
    × IsSteady g.rest
recvn_total_example = recvn_total 4 pieces (omega arith) (ground arith) (ground arith) (omega arith)

abbrev answers : List (Round ℕ)
answers = gave 2 ∷ blocked true ∷ gave 1 ∷ []

abbrev cut_off : Put
cut_off = record { ret = minus; taken = 7 ∷ []; rest = [] }

send-cut : send (7 ∷ 8 ∷ []) (gave 1 ∷ refused 32 ∷ []) ≡ some cut_off
unfolding send send_loop
send-cut = refl

send_total_example :
    (p : Put) × (send (7 ∷ 8 ∷ 9 ∷ []) answers ≡ some p)
    × (p.ret ≡ ok 3)
    × (p.taken ≡ 7 ∷ 8 ∷ 9 ∷ [])
send_total_example =
    send_total (7 ∷ 8 ∷ 9 ∷ []) answers (omega arith) (ground arith) (ground arith) (omega arith)

-- The frame of a message of nine bytes goes out in two pieces and comes in three, with a byte more.
abbrev frame : List ℕ
frame = b'0' ∷ b'0' ∷ b'0' ∷ b'9' ∷ hello_body

abbrev went : Put
went = record { ret = ok 13; taken = frame; rest = [] }

abbrev arrivals : List (Round (List ℕ))
arrivals =
    gave (b'0' ∷ [])
    ∷ blocked true
    ∷ gave (b'0' ∷ b'0' ∷ b'9' ∷ [])
    ∷ gave (take 5 hello_body)
    ∷ interrupted
    ∷ gave (drop 5 hello_body)
    ∷ gave (99 ∷ [])
    ∷ []

-- A message whose content alone has 9994 bytes.
abbrev long : Protocol
long = create heart_beat 5 (replicate 9994 1)

long-length : length (serialize plain_codec long) ≡ 10000
long-length = length-plain (replicate 9994 1) ∙ ap (λ n. 6 + n) (length-replicate {A = ℕ} 9994 1)

abbrev long_frame : List ℕ
long_frame = encode plain_codec long

long_frame-length : length long_frame ≡ 10004
unfolding header
long_frame-length =
    ap length (longest_frame plain_codec long long-length) ∙ omega (arith, long-length)

-- It arrives in three pieces.
abbrev long_arrivals : List (Round (List ℕ))
long_arrivals =
    gave (take 4 long_frame)
    ∷ gave (take 1000 (drop 4 long_frame))
    ∷ gave (drop 1000 (drop 4 long_frame))
    ∷ []

three-Fits :
    (a b c : List ℕ)
    → length a ≡ 4
    → length b ≡ 1000
    → Fits 4 (1000 ∷ []) (gave a ∷ gave b ∷ gave c ∷ [])
three-Fits a b c h k = ground (arith, h, k)

three-IsSteady :
    (a b c : List ℕ)
    → length a ≡ 4
    → length b ≡ 1000
    → length c ≡ 9000
    → IsSteady (gave a ∷ gave b ∷ gave c ∷ [])
three-IsSteady a b c h k l = omega (arith, h, k, l)

take-drop : (n : ℕ) (l : List ℕ) → take n l ++ drop n l ≡ l
take-drop zero l = refl
take-drop (suc n) [] = refl
take-drop (suc n) (x ∷ l) = ap (λ r. x ∷ r) (take-drop n l)

three-flow :
    (n m : ℕ) (l : List ℕ) → take n l ++ (take m (drop n l) ++ (drop m (drop n l) ++ [])) ≡ l ++ []
three-flow n m l =
    ap (λ r. take n l ++ r)
      (sym (append_assoc (take m (drop n l)) (drop m (drop n l)) [])
        ∙ ap (λ r. r ++ []) (take-drop m (drop n l)))
    ∙ sym (append_assoc (take n l) (drop n l) [])
    ∙ ap (λ r. r ++ []) (take-drop n l)

longest_cut_example :
    let body = serialize plain_codec long in
    (encode plain_codec long ≡ header 1000 ++ body)
    × (left : List (Round (List ℕ))) × (recv_message plain_codec long_arrivals
        ≡ some (message (decode plain_codec (take 1000 body) 1000), left))
    × (flow left ≡ drop 1000 body ++ [])
    × (length (drop 1000 body) ≡ 9000)
longest_cut_example =
    let first = length-take 4 long_frame (omega (arith, long_frame-length)) in
    let tail = length-drop 4 long_frame in
    let second = length-take 1000 (drop 4 long_frame) (omega (arith, long_frame-length, tail)) in
    let third = length-drop 1000 (drop 4 long_frame) in
    longest_cut plain_codec long long_arrivals [] long-length (three-flow 4 1000 long_frame)
      (three-Fits _ _ _ first second)
      (three-IsSteady _ _ _ first second (omega (arith, long_frame-length, tail, third)))
