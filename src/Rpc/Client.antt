-- ===== src/Rpc/Client.antt =====
-- include/rpc/rpc_client.h and src/rpc/rpc_client.cc: the calls that wait for an answer. Channels
-- are numbered; each call has one of its own.
use tit_co.Base.{
  Bool, true, false, ℕ, suc, ◌+◌, ◌%◌, ◌<◌, ◌≡◌, ◌≢◌, ◌==◌, if◌then◌else◌, Option, none, some, List,
  [], ◌∷◌, length, arith,
}
use tit_co.Base.Word.{u32}
use tit_co.Rpc.Message.{request_call, Protocol, create}

-- `RpcState`, and the `Result` that a call ends with; what it does not set is `none`.
pub data RpcState : Type 0 where
  success fail no_method closed timed_out : RpcState

pub record Result (Req Res : Type 0) : Type 0 where
  pub base_proto : Option Req
  pub target_proto : Option Res
  pub state : RpcState

-- The end of `Call`, by the scheduler's flag and what `Deserialize` made of the answer.
unfoldable pub call_result : {Req Res : Type 0} → Bool → Req → Option Res → Result Req Res
call_result true req res = record { base_proto = none; target_proto = none; state = timed_out }
call_result false req none = record { base_proto = none; target_proto = none; state = no_method }
call_result false req (some res) = record {
  base_proto = some req;
  target_proto = some res;
  state = success;
}

-- The members of `RpcClient` that its loops share: `req_id_` and `request_map_`.
pub record RpcClient : Type 0 where
  pub req_id : ℕ
  pub request_map : ℕ → Option ℕ

abbrev pub update : (ℕ → Option ℕ) → ℕ → Option ℕ → ℕ → Option ℕ
update f i c j = if i == j then c else f j

abbrev pub fresh_client : RpcClient
fresh_client = record { req_id = 1; request_map = λ i. none }

-- `Call` up to `send_channel_ << base_proto`: the message that goes out.
unfoldable pub request : RpcClient → List ℕ → List ℕ → Protocol
unfolding create
request c srv_name target = record (create request_call c.req_id target) { srv_name = srv_name }

-- The block of `Call` under the mutex, for the channel of the call.
unfoldable pub enter : RpcClient → ℕ → RpcClient
enter c channel = record {
  req_id = suc c.req_id % u32;
  request_map = update c.request_map c.req_id (some channel);
}

-- The body of `RecvLoop` for a message with this id: the channel that gets it (`none` is a channel
-- made on the spot, which nobody reads).
unfoldable pub receive : RpcClient → ℕ → Option ℕ × RpcClient
receive c req_id =
    (c.request_map req_id, record c { request_map = update c.request_map req_id none })

-- A call from its message to its registration without another step between, and an answer.
pub data Event : Type 0 where
  calls : ℕ → Event
  answers : ℕ → Event

unfoldable pub step : RpcClient → Event → RpcClient
unfolding enter receive
step c (calls channel) = enter c channel
step c (answers req_id) = (receive c req_id).1

unfoldable pub run : RpcClient → List Event → RpcClient
unfolding step
run c [] = c
run c (e ∷ es) = run (step c e) es

-- No answer to this call.
abbrev pub Unanswered : ℕ → List Event → Type 0
Unanswered req_id [] = Unit
Unanswered req_id (calls channel ∷ es) = Unanswered req_id es
Unanswered req_id (answers r ∷ es) = (r ≢ req_id) × Unanswered req_id es

run-keeps :
    (id channel n : ℕ) (es : List Event) (c : RpcClient)
    → id < u32
    → 0 < n
    → n + length es < u32
    → c.req_id ≡ (id + n) % u32
    → c.request_map id ≡ some channel
    → Unanswered id es
    → (run c es).request_map id ≡ some channel
unfolding run enter receive
run-keeps id channel n [] c b p l a m u = m
run-keeps id channel n (calls ch ∷ es) c b p l a m u =
    run-keeps id channel (suc n) es (enter c ch) b (omega arith) (omega arith) (omega (arith, a))
      (ground (arith, m, a)) u
run-keeps id channel n (answers r ∷ es) c b p l a m (ne, u) =
    run-keeps id channel n es (receive c r).1 b p (omega arith) a (ground (arith, m)) u

-- While calls go on one after the other, fewer than 2 ^ 32 of them and answers together, and none of the answers is for a
-- certain call, the answer to that call, which carries the id of its message, goes to its channel.
pub answer_reaches :
    (c : RpcClient) (channel : ℕ) (srv_name target : List ℕ) (es : List Event)
    → c.req_id < u32
    → suc (length es) < u32
    → Unanswered c.req_id es
    → (receive (run (enter c channel) es) (request c srv_name target).req_id).0 ≡ some channel
unfolding receive enter request
answer_reaches c channel srv_name target es b l u =
    run-keeps c.req_id channel 1 es (enter c channel) b (omega arith) (omega arith) (omega arith)
      (ground arith) u

-- Two calls whose messages are both made before either is registered, as when the first of them
-- waits at the full channel of the sender: the messages carry the same id, the answer to it goes to
-- the first that registers, and a second answer to that id to nobody.
pub calls_collide :
    (c : RpcClient) (first second : ℕ) (srv_name target srv_name' target' : List ℕ)
    → c.req_id < u32
    → let registered = enter (enter c first) second in
      ((request c srv_name target).req_id ≡ (request c srv_name' target').req_id)
      × ((receive registered c.req_id).0 ≡ some first)
      × ((receive (receive registered c.req_id).1 c.req_id).0 ≡ none)
unfolding receive enter request
calls_collide c first second srv_name target srv_name' target' b =
    (ground arith, ground arith, ground arith)
