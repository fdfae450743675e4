-- ===== src/Rpc/Message.antt =====
-- include/rpc/protocol.h: the messages, and how they are turned into the generated `BaseProtocolBuf`
-- and back. That class and the protobuf library below it are the parameter `Codec`.
use tit_co.Base.{
  Bool, true, sym, subst, ◌<◌, ℕ, ◌%◌, ◌≡◌, refl, ap, Option, none, some, List, [], ◌∷◌, length,
  arith,
}
use tit_co.Base.Word.{u32}

-- `enum MsgType`, as the number that travels.
pub data MsgType : Type 0 where
  heart_beat provider consumer request response request_call response_call register
        register_response discover discover_response :
      MsgType

-- `class Protocol`; a text is the list of its bytes.
pub record Protocol : Type 0 where
  pub magic : ℕ
  pub version : ℕ
  pub msg_type : MsgType
  pub req_id : ℕ
  pub data_len : ℕ
  pub srv_name : List ℕ
  pub content : List ℕ

abbrev pub k_magic : ℕ
k_magic = 0xaa

abbrev pub k_version : ℕ
k_version = 1

-- `Protocol::Create(type, req_id, data)`
unfoldable pub create : MsgType → ℕ → List ℕ → Protocol
create type req_id content = record {
  magic = k_magic;
  version = k_version;
  msg_type = type;
  req_id = req_id;
  data_len = length content % u32;
  srv_name = [];
  content = content;
}

-- The fields of `BaseProtocolBuf`; `srv_name` is the optional one.
pub record Buf : Type 0 where
  pub magic : ℕ
  pub version : ℕ
  pub type : MsgType
  pub data_len : ℕ
  pub content : List ℕ
  pub req_id : ℕ
  pub srv_name : Option (List ℕ)

-- The name is one that `utf8` takes.
abbrev pub IsNamed : (List ℕ → Bool) → Option (List ℕ) → Type 0
IsNamed utf8 none = Unit
IsNamed utf8 (some name) = utf8 name ≡ true

-- Fields that the class can hold: the numbers are words of 32 bits, and the name, which is a `string`
-- of proto3, is in UTF-8.
pub record IsHeld (utf8 : List ℕ → Bool) (b : Buf) : Type 0 where
  pub magic : b.magic < u32
  pub version : b.version < u32
  pub data_len : b.data_len < u32
  pub req_id : b.req_id < u32
  pub srv_name : IsNamed utf8 b.srv_name

-- `SerializeAsString` and `ParseFromString`, where `utf8` is `VerifyUtf8String`: parsing what was
-- serialised gives the fields back, if the class can hold them. Of another name nothing is assumed:
-- there the parser fails.
pub record Codec : Type 0 where
  pub serialize : Buf → List ℕ
  pub parse : List ℕ → Buf
  pub utf8 : List ℕ → Bool
  pub parse-serialize : (b : Buf) → IsHeld utf8 b → parse (serialize b) ≡ b

abbrev name_field : List ℕ → Option (List ℕ)
name_field [] = none
name_field (c ∷ cs) = some (c ∷ cs)

abbrev to_buf : Protocol → Buf
to_buf p = record {
  magic = p.magic;
  version = p.version;
  type = p.msg_type;
  data_len = p.data_len;
  content = p.content;
  req_id = p.req_id;
  srv_name = name_field p.srv_name;
}

abbrev set_name : Protocol → Option (List ℕ) → Protocol
set_name p none = p
set_name p (some name) = record p { srv_name = name }

module _ (codec : Codec) where
  -- `SerializerHandler<Protocol>::Serialize` and `Deserialize`
  unfoldable pub serialize : Protocol → List ℕ
  serialize p = codec.serialize (to_buf p)

  unfoldable pub deserialize : List ℕ → Protocol
  unfolding create
  deserialize stream =
      let b = codec.parse stream in set_name (create b.type b.req_id b.content) b.srv_name

-- A message as `Create` and `set_srv_name` make it; its id is a `uint32_t`.
pub record IsMade (p : Protocol) : Type 0 where
  pub magic : p.magic ≡ k_magic
  pub version : p.version ≡ k_version
  pub data_len : p.data_len ≡ length p.content % u32
  pub req_id : p.req_id < u32

-- Its service name, if it has one, is in UTF-8.
abbrev pub IsUtf8 : Codec → Protocol → Type 0
IsUtf8 codec p = IsNamed codec.utf8 (name_field p.srv_name)

-- The numbers of a message are words of 32 bits.
abbrev pub HasWords : Protocol → Type 0
HasWords p = (p.magic < u32) × (p.version < u32) × (p.data_len < u32) × (p.req_id < u32)

to_buf-IsHeld :
    (codec : Codec) (p : Protocol) → IsMade p → IsUtf8 codec p → IsHeld codec.utf8 (to_buf p)
to_buf-IsHeld codec p m u = record {
  magic = omega (arith, m.magic);
  version = omega (arith, m.version);
  data_len = omega (arith, m.data_len);
  req_id = m.req_id;
  srv_name = u;
}

made_again :
    (name : List ℕ) (p : Protocol)
    → p.srv_name ≡ name
    → IsMade p
    → set_name (create p.msg_type p.req_id p.content) (name_field name) ≡ p
unfolding create
made_again [] p e m = ground arith
made_again (c ∷ cs) p e m = ground arith

-- A message as the program makes it survives serialisation, its service name included, whether it
-- has one, in UTF-8, or not.
pub deserialize-serialize :
    (codec : Codec) (p : Protocol)
    → IsMade p
    → IsUtf8 codec p
    → deserialize codec (serialize codec p) ≡ p
unfolding serialize deserialize
deserialize-serialize codec p m u =
    rw (codec.parse-serialize (to_buf p) (to_buf-IsHeld codec p m u))
      (made_again p.srv_name p refl m)

-- A message without a service name is read as what `Create` makes of its type, id and content.
pub deserialize-nameless :
    (codec : Codec) (p : Protocol)
    → HasWords p
    → p.srv_name ≡ []
    → deserialize codec (serialize codec p) ≡ create p.msg_type p.req_id p.content
unfolding serialize deserialize
deserialize-nameless codec p (m, v, l, i) e =
    let held : IsHeld codec.utf8 (to_buf p) = record {
      magic = m;
      version = v;
      data_len = l;
      req_id = i;
      srv_name = subst (λ name. IsNamed codec.utf8 (name_field name)) (sym e) tt;
    } in
    rw (codec.parse-serialize (to_buf p) held)
      (ap (λ name. set_name (create p.msg_type p.req_id p.content) (name_field name)) e)
