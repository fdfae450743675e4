-- ===== src/Rpc/Calls.antt =====
-- A whole call of the service "hello": the client of src/rpc/rpc_client.cc, the frames between, and
-- the server of src/rpc/rpc_server_provider.cc.
mod Tests
use tit_co.Base.{
  ℕ, suc, ◌≡◌, refl, sym, ◌||◌, if◌then◌else◌, Bool, true, false, ◌==◌, Option, none, some, List,
  [], ◌∷◌, length, arith,
}
use tit_co.Rpc.Message.{Codec, Protocol, request_call, serialize, deserialize}
use tit_co.Rpc.Frame.{Received, nothing, message, negative_size}
use tit_co.Rpc.RoundTrip.{transfer}
use tit_co.Rpc.Client.{Result, success, timed_out, RpcClient, request, enter, receive, call_result}
use tit_co.Rpc.Server.{
  same_text, find, assign, register, SrvTraits, Answer, silent, breaks, sets, Provider, on_new_conn,
}
use tit_co.Rpc.Hello.{
  HelloProtocol, WorldProtocol, ProtocolInterface, Bufs, serialize_hello, hello_srv_traits,
  hello_name, register_hello, call_request, call_end,
}

-- What the client reads of an answer; `none` where the server sends none, or breaks.
unfoldable pub client_reads : Codec → Answer → Option Received
unfolding transfer
client_reads codec silent = none
client_reads codec breaks = none
client_reads codec (sets r) = some (transfer codec r)

module _ {P : Type 0} where
  -- A server that gets a message answers it or not; what it cannot read, it does not answer.
  unfoldable pub answer_received : Provider P → Received → Answer
  unfolding on_new_conn
  answer_received s (message p) = on_new_conn s false p
  answer_received s (nothing closes) = silent
  answer_received s negative_size = breaks

  -- What the client reads after it has sent this message.
  unfoldable pub exchange : Codec → Provider P → Protocol → Option Received
  unfolding answer_received client_reads transfer
  exchange codec s p = client_reads codec (answer_received s (transfer codec p))

same_text_refl : (name : List ℕ) → same_text name name ≡ true
same_text_refl [] = refl
same_text_refl (c ∷ cs) = ground (arith, same_text_refl cs)

module _ {A : Type 0} where
  find-assign :
      (name : List ℕ) (a : A) (m : List (List ℕ × A))
      → find name m ≡ none
      → find name (assign name a m) ≡ some a
  unfolding find assign
  find-assign name a [] e = rw (same_text_refl name) refl
  find-assign name a ((key, b) ∷ rest) e = ground (arith, e, find-assign name a rest)

module _ {P : Type 0} where
  find-register :
      (name : List ℕ) (traits : SrvTraits P) (m : List (List ℕ × SrvTraits P))
      → find name m ≡ none
      → find name (register name traits m) ≡ some traits
  unfolding register
  find-register name traits m e = ground (arith, e, find-assign name traits m e)

-- The constructor of `HelloSrvTraits` makes the traits known under "hello".
pub find-register_hello :
    (bufs : Bufs) (m : List (List ℕ × SrvTraits ProtocolInterface))
    → find hello_name m ≡ none
    → find hello_name (register_hello bufs m) ≡ some (hello_srv_traits bufs)
unfolding register_hello
find-register_hello bufs m e = find-register hello_name (hello_srv_traits bufs) m e

abbrev is_none : Option ℕ → Bool
is_none none = true
is_none (some channel) = false

-- How a call ends whose answer is read as this message: the channel that gets it, and what `Call`
-- returns. It returns a time-out if its time ran out first, or if the answer finds no channel: then
-- none comes to the channel of the call, and it ends by its time-out, if it has one.
unfoldable pub arrives :
    Bufs
    → RpcClient
    → Bool
    → HelloProtocol
    → Option Received
    → Option (Option ℕ × Result HelloProtocol WorldProtocol)
unfolding receive call_end
arrives bufs c expired req none = none
arrives bufs c expired req (some (message q)) =
    let given = (receive c q.req_id).0 in
    some (given, call_end bufs (expired || is_none given) req q)
arrives bufs c expired req (some (nothing closes)) = none
arrives bufs c expired req (some negative_size) = none

-- A call of a service with the messages of "hello". `Call` registers its channel after it has sent
-- the message: `registered` is whether it has when the answer comes, `expired` whether its time
-- runs out before that.
unfoldable pub call :
    Codec
    → Bufs
    → Provider ProtocolInterface
    → RpcClient
    → ℕ
    → Bool
    → Bool
    → List ℕ
    → HelloProtocol
    → Option (Option ℕ × Result HelloProtocol WorldProtocol)
unfolding exchange arrives call_request enter
call codec bufs s c channel registered expired srv_name req =
    arrives bufs (if registered then enter c channel else c) expired req
      (exchange codec s (call_request bufs c srv_name req))

abbrev succeeds : HelloProtocol → WorldProtocol → Result HelloProtocol WorldProtocol
succeeds req w = record { base_proto = some req; target_proto = some w; state = success }

abbrev gave_up : Result HelloProtocol WorldProtocol
gave_up = record { base_proto = none; target_proto = none; state = timed_out }

module _ (codec : Codec) (bufs : Bufs) (s : Provider ProtocolInterface) (c : RpcClient)
    (channel : ℕ) (srv_name : List ℕ) (req : HelloProtocol) where
  -- The answer comes before the call has registered, as the order of its statements allows, and no
  -- other call has its id: the answer finds no channel, and the call ends by its time-out, if it has one.
  pub answer_too_early :
      (r : Received) (expired : Bool) (q : Protocol)
      → exchange codec s (call_request bufs c srv_name req) ≡ some r
      → r ≡ message q
      → c.request_map q.req_id ≡ none
      → call codec bufs s c channel false expired srv_name req ≡ some (none, gave_up)
  unfolding call arrives receive call_end
  answer_too_early r true q e m n = rw (e, m, n) refl
  answer_too_early r false q e m n = rw (e, m, n) refl
