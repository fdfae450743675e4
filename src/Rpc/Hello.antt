-- ===== src/Rpc/Hello.antt =====
-- include/rpc/protocols/hello.h and include/interfaces/serializer_interface.h: the service "hello",
-- its two messages and how they are written. The generated classes `HelloProtocolBuf` and
-- `WorldProtocolBuf` are parameters.
use tit_co.Base.{some, true, ap, List, [], ◌∷◌, ℕ, ◌≡◌, Bool}
use tit_co.Base.Int.{ℤ}
use tit_co.Rpc.Message.{Protocol}
use tit_co.Rpc.Client.{Result, RpcClient, request, call_result}
use tit_co.Rpc.Server.{SrvTraits, register}

-- `struct HelloProtocol` and `struct WorldProtocol`.
pub record HelloProtocol : Type 0 where
  pub name : List ℕ

pub record WorldProtocol : Type 0 where
  pub result : ℤ

-- What a `ProtocolInterface*` points to.
pub data ProtocolInterface : Type 0 where
  hello : HelloProtocol → ProtocolInterface
  world : WorldProtocol → ProtocolInterface

-- A generated class with one field: `SerializeAsString` after the field is set, and
-- `ParseFromString` followed by reading the field; parsing what was serialised gives the field back
-- if the field can hold it: a `string` only what is in UTF-8, an `int32` only 32 bits.
pub record FieldCodec (A : Type 0) : Type 0 where
  pub serialize : A → List ℕ
  pub parse : List ℕ → A
  pub holds : A → Bool
  pub parse-serialize : (a : A) → holds a ≡ true → parse (serialize a) ≡ a

-- The two generated classes, and what is read from an object of the other class, which the casts of
-- the handlers do not rule out.
pub record Bufs : Type 0 where
  pub hello_buf : FieldCodec (List ℕ)
  pub world_buf : FieldCodec ℤ
  pub misread_name : WorldProtocol → List ℕ
  pub misread_result : HelloProtocol → ℤ

-- The name that the service registers its serialisers under.
abbrev pub hello_name : List ℕ
hello_name = b'h' ∷ b'e' ∷ b'l' ∷ b'l' ∷ b'o' ∷ []

module _ (bufs : Bufs) where
  -- `protocol->name` after the cast to `HelloProtocol*`, and `protocol->result`.
  abbrev name_of : ProtocolInterface → List ℕ
  name_of (hello h) = h.name
  name_of (world w) = bufs.misread_name w

  abbrev result_of : ProtocolInterface → ℤ
  result_of (hello h) = bufs.misread_result h
  result_of (world w) = w.result

  -- `Serializer<HelloProtocol>`, which passes on to `SerializerHandler<HelloProtocol>`.
  unfoldable pub serialize_hello : ProtocolInterface → List ℕ
  serialize_hello protocol = bufs.hello_buf.serialize (name_of protocol)

  unfoldable pub deserialize_hello : List ℕ → HelloProtocol
  deserialize_hello stream = record { name = bufs.hello_buf.parse stream }

  -- `Serializer<WorldProtocol>`
  unfoldable pub serialize_world : ProtocolInterface → List ℕ
  serialize_world protocol = bufs.world_buf.serialize (result_of protocol)

  unfoldable pub deserialize_world : List ℕ → WorldProtocol
  deserialize_world stream = record { result = bufs.world_buf.parse stream }

  pub deserialize-serialize_hello :
      (h : HelloProtocol)
      → bufs.hello_buf.holds h.name ≡ true
      → deserialize_hello (serialize_hello (hello h)) ≡ h
  unfolding deserialize_hello serialize_hello
  deserialize-serialize_hello h held =
      ap (λ (n : List ℕ). record { name = n }) (bufs.hello_buf.parse-serialize h.name held)

  pub deserialize-serialize_world :
      (w : WorldProtocol)
      → bufs.world_buf.holds w.result ≡ true
      → deserialize_world (serialize_world (world w)) ≡ w
  unfolding deserialize_world serialize_world
  deserialize-serialize_world w held =
      ap (λ (i : ℤ). record { result = i }) (bufs.world_buf.parse-serialize w.result held)

  -- `HelloSrvTraits`
  unfoldable pub hello_srv_traits : SrvTraits ProtocolInterface
  unfolding deserialize_hello serialize_world
  hello_srv_traits = record {
    req_deserialize = λ stream. hello (deserialize_hello stream);
    res_serialize = serialize_world;
  }

  -- Its constructor, which the static object runs, on the map of the manager.
  unfoldable pub register_hello :
      List (List ℕ × SrvTraits ProtocolInterface) → List (List ℕ × SrvTraits ProtocolInterface)
  unfolding register hello_srv_traits
  register_hello m = register hello_name hello_srv_traits m

  -- `Call<HELLO_PROTOCOL>` up to the message that goes out, and from the answer on.
  unfoldable pub call_request : RpcClient → List ℕ → HelloProtocol → Protocol
  unfolding request serialize_hello
  call_request c srv_name req_proto = request c srv_name (serialize_hello (hello req_proto))

  unfoldable pub call_end : Bool → HelloProtocol → Protocol → Result HelloProtocol WorldProtocol
  unfolding call_result deserialize_world
  call_end timed_out req_proto answer =
      call_result timed_out req_proto (some (deserialize_world answer.content))
