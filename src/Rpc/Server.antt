-- ===== src/Rpc/Server.antt =====
-- src/rpc/rpc_server_provider.cc and include/rpc/protocol_manager.h: the answer to a request. The
-- messages of the services (`P`) and what their handlers do are arguments.
use tit_co.Base.{
  ℕ, ◌≡◌, refl, ap, Bool, true, false, ◌&&◌, ◌==◌, if◌then◌else◌, Option, none, some, List, [], ◌∷◌,
}
use tit_co.Rpc.Message.{MsgType, request_call, response_call, Protocol, create}

-- Texts are compared byte by byte.
abbrev pub same_text : List ℕ → List ℕ → Bool
same_text [] [] = true
same_text [] (c ∷ cs) = false
same_text (b ∷ bs) [] = false
same_text (b ∷ bs) (c ∷ cs) = b == c && same_text bs cs

module _ {A : Type 0} where
  -- `std::map` from names: `find`, and the assignment to an element.
  unfoldable pub find : List ℕ → List (List ℕ × A) → Option A
  find name [] = none
  find name ((key, a) ∷ rest) = if same_text key name then some a else find name rest

  unfoldable pub assign : List ℕ → A → List (List ℕ × A) → List (List ℕ × A)
  assign name a [] = (name, a) ∷ []
  assign name a ((key, b) ∷ rest) =
      let more = assign name a rest in
      if same_text key name then (key, a) ∷ rest else (key, b) ∷ more

-- The traits of a service: `req_serializer()->Deserialize` and `res_serializer()->Serialize`, as a
-- class below `SrvTraits` overrides them.
pub record SrvTraits (P : Type 0) : Type 0 where
  pub req_deserialize : List ℕ → P
  pub res_serialize : P → List ℕ

module _ {P : Type 0} where
  -- `ProtocolManager::Register` and `Get`; `none` is `new SrvTraits()`, whose serialisers give null
  -- pointers.
  unfoldable pub register :
      List ℕ → SrvTraits P → List (List ℕ × SrvTraits P) → List (List ℕ × SrvTraits P)
  unfolding find assign
  register srv_name traits m = elim (find srv_name m) [
    | none ↦ assign srv_name traits m
    | some _ ↦ m
  ]

  unfoldable pub get : List ℕ → List (List ℕ × SrvTraits P) → Option (SrvTraits P)
  unfolding find
  get srv_name m = find srv_name m

-- `RpcServerProvider`: the handlers, which turn a request into a response.
pub record Provider (P : Type 0) : Type 0 where
  pub handlers : List (List ℕ × (P → P))
  pub manager : List (List ℕ × SrvTraits P)

-- What `OnNewConn` comes to: it sets no response; it sets one; or a null pointer becomes a
-- `std::string`, which is undefined behaviour.
pub data Answer : Type 0 where
  silent breaks : Answer
  sets : Protocol → Answer

abbrev is_request : MsgType → Bool
is_request request_call = true
is_request _ = false

abbrev pub other : List ℕ
other = b'o' ∷ b't' ∷ b'h' ∷ b'e' ∷ b'r' ∷ []

abbrev unknown : Protocol → Protocol
unfolding create
unknown p = create response_call p.req_id other

-- The answer of a service with this content.
abbrev pub reply : ℕ → List ℕ → Protocol
unfolding create
reply req_id content = record (create response_call req_id []) { content = content }

module _ {P : Type 0} where
  -- `RegisterHandler`
  abbrev pub register_handler : List ℕ → (P → P) → Provider P → Provider P
  unfolding assign
  register_handler name func s = record s { handlers = assign name func s.handlers }

  -- `RpcRequest::DeserializeDataReqProtocol` and `RpcResponse::SerializeDataRespProtocol`
  abbrev deserialize_data_req : SrvTraits P → List ℕ → P
  deserialize_data_req traits raw_data = traits.req_deserialize raw_data

  abbrev serialize_data_resp : SrvTraits P → P → Protocol → Protocol
  serialize_data_resp traits data_resp resp = record resp {
    content = traits.res_serialize data_resp;
  }

  -- Without traits of its own, a service is handed a null pointer for the request, and the text of
  -- its response is made of another.
  abbrev pub served : Provider P → Protocol → (P → P) → Answer
  unfolding get create
  served s p func = elim (get p.srv_name s.manager) [
    | none ↦ breaks
    | some traits ↦ sets (
        serialize_data_resp traits (func (deserialize_data_req traits p.content))
          (create response_call p.req_id []))
  ]

  -- `OnNewConn`, where `failed` is `get_error() == 1`.
  unfoldable pub on_new_conn : Provider P → Bool → Protocol → Answer
  unfolding served unknown find
  on_new_conn s true p = silent
  on_new_conn s false p =
      if is_request p.msg_type
      then elim (find p.srv_name s.handlers) [
        | none ↦ sets (unknown p)
        | some func ↦ served s p func
      ]
      else silent

  pub on_new_conn_served :
      (s : Provider P) (p : Protocol) (func : P → P) (traits : SrvTraits P)
      → p.msg_type ≡ request_call
      → find p.srv_name s.handlers ≡ some func
      → find p.srv_name s.manager ≡ some traits
      → on_new_conn s false p
        ≡ sets (reply p.req_id (traits.res_serialize (func (traits.req_deserialize p.content))))
  unfolding on_new_conn get create
  on_new_conn_served s p func traits t h m = rw (t, h) (rw (m, served) refl)

  -- The other answer.
  pub on_new_conn_unknown :
      (s : Provider P) (p : Protocol)
      → p.msg_type ≡ request_call
      → find p.srv_name s.handlers ≡ none
      → on_new_conn s false p ≡ sets (create response_call p.req_id other)
  unfolding on_new_conn
  on_new_conn_unknown s p t h = rw (t, h) refl

  answer_same :
      (s : Provider P) (m : List (List ℕ × SrvTraits P)) (p : Protocol) (o : Option (P → P))
      → ((func : P → P)
          → o ≡ some func
          → served s p func ≡ served (record s { manager = m }) p func)
      → elim o as (λ _. Answer) [ none ↦ sets (unknown p) | some func ↦ served s p func ]
        ≡ elim o as (λ _. Answer) [
          | none ↦ sets (unknown p)
          | some func ↦ served (record s { manager = m }) p func
        ]
  answer_same s m p none h = refl
  answer_same s m p (some func) h = h func refl

  -- Two managers by which each service gets the same answer.
  pub on_new_conn_managers :
      (s : Provider P) (m : List (List ℕ × SrvTraits P)) (p : Protocol)
      → ((func : P → P)
          → find p.srv_name s.handlers ≡ some func
          → served s p func ≡ served (record s { manager = m }) p func)
      → on_new_conn s false p ≡ on_new_conn (record s { manager = m }) false p
  unfolding on_new_conn
  on_new_conn_managers s m p h =
      ap (λ r. if is_request p.msg_type then r else silent)
        (answer_same s m p (find p.srv_name s.handlers) h)

  -- A request for a service that is registered is answered under its own id with what the handler
  -- makes of it, read and written by the service's own traits; but the length that travels with the
  -- answer is 0, whatever its content.
  pub on_new_conn_lem :
      (s : Provider P) (p : Protocol) (func : P → P) (traits : SrvTraits P)
      → p.msg_type ≡ request_call
      → find p.srv_name s.handlers ≡ some func
      → find p.srv_name s.manager ≡ some traits
      → (r : Protocol) × (on_new_conn s false p ≡ sets r)
        × (r.msg_type ≡ response_call)
        × (r.req_id ≡ p.req_id)
        × (r.content ≡ traits.res_serialize (func (traits.req_deserialize p.content)))
        × (r.data_len ≡ 0)
  unfolding create
  on_new_conn_lem s p func traits t h m = (
    reply p.req_id (traits.res_serialize (func (traits.req_deserialize p.content))),
    on_new_conn_served s p func traits t h m,
    refl,
    refl,
    refl,
    refl,
  )

  -- A handler under a name that has no traits: a request for it is undefined behaviour.
  pub no_traits :
      (s : Provider P) (p : Protocol) (func : P → P)
      → p.msg_type ≡ request_call
      → find p.srv_name s.handlers ≡ some func
      → find p.srv_name s.manager ≡ none
      → on_new_conn s false p ≡ breaks
  unfolding on_new_conn get
  no_traits s p func t h m = rw (t, h) (rw (m, served) refl)
