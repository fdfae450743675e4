-- ===== src/Rpc/Casts.antt =====
-- The casts of include/rpc/protocols/hello.h: `(HelloProtocol*)` and `(WorldProtocol*)` of what a
-- `ProtocolInterface*` points to, which no test guards.
use tit_co.Base.{
  ℕ, ◌≡◌, refl, ap, sym, subst, ◌∙◌, Bool, false, if◌then◌else◌, Bool-cases, inl, inr, Option, none,
  some, List, [], ◌∷◌, arith,
}
use tit_co.Base.Int.{ℤ}
use tit_co.Rpc.Message.{Codec, Protocol, create}
use tit_co.Rpc.Frame.{Received, nothing, message, negative_size}
use tit_co.Rpc.RoundTrip.{transfer}
use tit_co.Rpc.Client.{RpcClient, enter}
use tit_co.Rpc.Server.{
  same_text, find, get, Provider, sets, served, reply, on_new_conn, on_new_conn_managers,
}
use tit_co.Rpc.Hello.{
  HelloProtocol, WorldProtocol, ProtocolInterface, hello, world, Bufs, hello_name, serialize_world,
  register_hello, call_request, deserialize_hello,
}
use tit_co.Rpc.Calls.{answer_received, client_reads, exchange, arrives, call}

abbrev pub Func : Type 0
Func = ProtocolInterface → ProtocolInterface

-- A server whose manager knows the service "hello", as the static object of the header makes it.
abbrev pub hello_server : Bufs → List (List ℕ × Func) → Provider ProtocolInterface
hello_server bufs handlers = record { handlers = handlers; manager = register_hello bufs [] }

-- The same classes with other answers to the casts that go wrong.
abbrev pub misreading : Bufs → (WorldProtocol → List ℕ) → (HelloProtocol → ℤ) → Bufs
misreading bufs names results = record bufs { misread_name = names; misread_result = results }

-- A handler makes a `WorldProtocol` of every `HelloProtocol`.
abbrev pub IsTyped : Func → Type 0
IsTyped func = (h : HelloProtocol) → (w : WorldProtocol) × (func (hello h) ≡ world w)

abbrev pub AllTyped : List (List ℕ × Func) → Type 0
AllTyped [] = Unit
AllTyped ((name, func) ∷ rest) = IsTyped func × AllTyped rest

module _ (bufs : Bufs) (names : WorldProtocol → List ℕ) (results : HelloProtocol → ℤ)
    (handlers : List (List ℕ × Func)) where
  found-IsTyped :
      (name : List ℕ) (fs : List (List ℕ × Func)) (func : Func)
      → AllTyped fs
      → find name fs ≡ some func
      → IsTyped func
  unfolding find
  found-IsTyped name [] func t e = absurd (cc)
  found-IsTyped name ((key, f) ∷ rest) func (t, ts) e = elim (Bool-cases (same_text key name)) [
    | inl q ↦ let same : f ≡ func = ground (arith, q, e) in subst IsTyped same t
    | inr q ↦ found-IsTyped name rest func ts (ground (arith, q, e))
  ]

  abbrev other_bufs : Bufs
  other_bufs = misreading bufs names results

  -- The two managers' answers for a service whose handler is typed.
  served_same :
      (p : Protocol) (func : Func)
      → IsTyped func
      → served (hello_server bufs handlers) p func
        ≡ served
            (record (hello_server bufs handlers) { manager = register_hello other_bufs [] })
            p
            func
  unfolding get register_hello serialize_world deserialize_hello create
  served_same p func typed = elim (Bool-cases (same_text hello_name p.srv_name)) [
    | inl q ↦
        let (w, made) = typed (deserialize_hello bufs p.content) in
        rw (q, served)
          (ap (λ m. sets (reply p.req_id (serialize_world bufs m))) made
            ∙ sym (ap (λ m. sets (reply p.req_id (serialize_world other_bufs m))) made))
    | inr q ↦ rw (q, served) refl
  ]

  answers_same :
      (p : Protocol)
      → AllTyped handlers
      → on_new_conn (hello_server bufs handlers) false p
        ≡ on_new_conn (hello_server other_bufs handlers) false p
  answers_same p typed =
      on_new_conn_managers (hello_server bufs handlers) (register_hello other_bufs []) p
        λ func e. served_same p func (found-IsTyped p.srv_name handlers func typed e)

  received_same :
      (r : Received)
      → AllTyped handlers
      → answer_received (hello_server bufs handlers) r
        ≡ answer_received (hello_server other_bufs handlers) r
  unfolding answer_received
  received_same (message p) typed = answers_same p typed
  received_same (nothing closes) typed = refl
  received_same negative_size typed = refl

  arrives_same :
      (c : RpcClient) (expired : Bool) (req : HelloProtocol) (o : Option Received)
      → arrives bufs c expired req o ≡ arrives other_bufs c expired req o
  unfolding arrives
  arrives_same c expired req none = refl
  arrives_same c expired req (some (message p)) = refl
  arrives_same c expired req (some (nothing closes)) = refl
  arrives_same c expired req (some negative_size) = refl

  -- Where every handler makes a `WorldProtocol` of each `HelloProtocol`, no cast goes wrong in a
  -- call: whatever the server makes of the request, under whatever name and with whatever bytes it
  -- arrives, the call comes to the same if a wrong cast had another answer, whether or not it has
  -- registered in time and whether or not its time runs out. (A handler under a name without
  -- serialisers is given a null pointer, and the server breaks in both cases.)
  pub casts_agree :
      (codec : Codec) (c : RpcClient) (channel : ℕ) (registered expired : Bool) (srv_name : List ℕ)
      (req : HelloProtocol)
      → AllTyped handlers
      → call codec bufs (hello_server bufs handlers) c channel registered expired srv_name req
        ≡ call codec other_bufs
            (hello_server other_bufs handlers)
            c
            channel
            registered
            expired
            srv_name
            req
  unfolding call exchange call_request
  casts_agree codec c channel registered expired srv_name req typed =
      let sent = transfer codec (call_request bufs c srv_name req) in
      let waits = if registered then enter c channel else c in
      ap (λ o. arrives bufs waits expired req (client_reads codec o)) (received_same sent typed)
      ∙ arrives_same waits expired req
          (client_reads codec (answer_received (hello_server other_bufs handlers) sent))
