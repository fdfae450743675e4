-- ===== src/Rpc/Tests.antt =====
-- The theorems on the RPC messages at concrete inputs.
use tit_co.Base.{
  map, ◌++◌, All, ℕ, ◌+◌, ◌≡◌, refl, List, false, sym, subst, ◌<◌, replicate, length-replicate, ◌∙◌,
  ap, some, [], ◌∷◌, length, take, drop, true, arith,
}
use tit_co.Rpc.Message.{heart_beat, Protocol, create, serialize}
use tit_co.Rpc.Frame.{encode, bytes, nothing, message, recv_protocol, sent, send_protocol}
use tit_co.Rpc.Client.{
  RpcClient, fresh_client, request, enter, receive, Event, calls, answers, run, answer_reaches,
}
use tit_co.Rpc.Loops.{Sending, IsOnly, Misses, recv_loop, recv_loop_ends}
use tit_co.Rpc.Message.{response_call}
use tit_co.Rpc.RoundTrip.{recv-send}
use tit_co.Rpc.Plain.{
  plain_codec, hello, hello-IsMade, hello-IsUtf8, hello-length, hello-IsText, length-plain,
}

hello_sent :
    (send_protocol plain_codec (some hello) (sent (length (encode plain_codec hello)))
      ≡ (true, encode plain_codec hello))
    × (recv_protocol plain_codec
          (bytes (take 4 (encode plain_codec hello)))
          (bytes (drop 4 (encode plain_codec hello)))
        ≡ message hello)
hello_sent =
    recv-send plain_codec hello hello-IsMade hello-IsUtf8
      (subst (λ (n : ℕ). 0 < n) (sym hello-length) (omega arith))
      (subst (λ (n : ℕ). n < 10000) (sym hello-length) (omega arith)) hello-IsText

-- The call with id 1 waits at channel 7; two more calls go out and the answer to one comes in.
abbrev later : List Event
later = calls 8 ∷ answers 2 ∷ calls 9 ∷ []

answer_reaches_example :
    (receive (run (enter fresh_client 7) later) (request fresh_client [] (5 ∷ [])).req_id).0
    ≡ some 7
answer_reaches_example =
    answer_reaches fresh_client 7 [] (5 ∷ []) later (omega arith) (omega arith)
      (λ e. omega (arith, e), _)

-- Two rounds of the sender: a message that goes out, and one whose content alone has 10000 bytes.
abbrev too_long : Protocol
too_long = create heart_beat 5 (replicate 10000 1)

abbrev goes_out : Sending
goes_out = record {
  protocol = some hello;
  timed_out = false;
  answer = sent (length (encode plain_codec hello));
}

abbrev is_long : Sending
is_long = record { protocol = some too_long; timed_out = false; answer = sent 0 }

too_long-length : 10000 < length (serialize plain_codec too_long)
too_long-length =
    subst (λ (n : ℕ). 10000 < n)
      (sym (length-plain (replicate 10000 1) ∙ ap (λ n. 6 + n) (length-replicate {A = ℕ} 10000 1)))
      (omega arith)

-- Calls 1 and 2 wait at channels 7 and 8; only 1 is answered before the connection ends.
abbrev two_wait : RpcClient
two_wait = enter (enter fresh_client 7) 8

two_wait-IsOnly : IsOnly two_wait 2 8
unfolding enter
two_wait-IsOnly = (refl, λ i e. ground (arith))

abbrev first_answer : Protocol
first_answer = create response_call 1 (4 ∷ [])

recv_loop_ends_example :
    let (given, last, ended) =
      recv_loop two_wait (map message (first_answer ∷ []) ++ (nothing true ∷ [])) in
    (map (λ g. g.1) given ≡ first_answer ∷ [])
    × All (Misses 8) given
    × (last.request_map 2 ≡ some 8)
    × (ended ≡ true)
unfolding create
recv_loop_ends_example =
    recv_loop_ends (first_answer ∷ []) two_wait 2 8 true [] two_wait-IsOnly (omega arith, _)
