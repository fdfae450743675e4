-- ===== src/Rpc/Plain.antt =====
-- A concrete `Codec`, and a message in it, for the tests.
use tit_co.Base.{
  true, ℕ, zero, suc, ◌+◌, ◌-◌, ◌≡◌, refl, ◌%◌, ◌∙◌, ap, ap₂, Option, none, some, List, [], ◌∷◌,
  ◌++◌, length, get_or, take, drop, take-append, drop-append, arith,
}
use tit_co.Base.Word.{u32}
use tit_co.Rpc.Message.{
  MsgType, heart_beat, provider, consumer, request, response, request_call, response_call, register,
  register_response, discover, discover_response, Protocol, create, Buf, Codec, serialize, IsMade,
  IsUtf8,
}
use tit_co.Rpc.Frame.{header, encode}
use tit_co.Rpc.RoundTrip.{IsText}

-- A codec that writes the fields one after the other, each number one higher, and the lengths of the
-- texts before them.
unfoldable pub type_code : MsgType → ℕ
type_code heart_beat = 0
type_code provider = 1
type_code consumer = 2
type_code request = 3
type_code response = 4
type_code request_call = 5
type_code response_call = 6
type_code register = 7
type_code register_response = 8
type_code discover = 9
type_code discover_response = 10

abbrev pub types : List MsgType
types =
    heart_beat ∷ provider ∷ consumer ∷ request ∷ response ∷ request_call ∷ response_call ∷ register
    ∷ register_response ∷ discover ∷ discover_response ∷ []

unfoldable pub code_type : ℕ → MsgType
code_type n = get_or types n heart_beat

code-type : (t : MsgType) → code_type (type_code t) ≡ t
unfolding code_type type_code
code-type heart_beat = refl
code-type provider = refl
code-type consumer = refl
code-type request = refl
code-type response = refl
code-type request_call = refl
code-type response_call = refl
code-type register = refl
code-type register_response = refl
code-type discover = refl
code-type discover_response = refl

unfoldable pub raise : List ℕ → List ℕ
raise [] = []
raise (c ∷ cs) = suc c ∷ raise cs

unfoldable pub lower : List ℕ → List ℕ
lower [] = []
lower (c ∷ cs) = (c - 1) ∷ lower cs

pub lower-raise : (cs : List ℕ) → lower (raise cs) ≡ cs
unfolding raise lower
lower-raise [] = refl
lower-raise (c ∷ cs) = ap₂ ◌∷◌ (omega arith) (lower-raise cs)

unfoldable pub put_name : Option (List ℕ) → List ℕ → List ℕ
put_name none cs = 0 ∷ cs
put_name (some name) cs = suc (length name) ∷ (name ++ cs)

unfoldable pub get_name : List ℕ → Option (List ℕ) × List ℕ
get_name [] = (none, [])
get_name (zero ∷ cs) = (none, cs)
get_name (suc n ∷ cs) = (some (take n cs), drop n cs)

get-put : (o : Option (List ℕ)) (cs : List ℕ) → get_name (put_name o cs) ≡ (o, cs)
unfolding get_name put_name
get-put none cs = refl
get-put (some name) cs =
    ap₂ (λ (a b : List ℕ). (some a, b)) (take-append name cs) (drop-append name cs)

unfoldable pub write_fields : Buf → List ℕ
write_fields b =
    b.magic ∷ b.version ∷ type_code b.type ∷ b.data_len ∷ b.req_id ∷ put_name b.srv_name b.content

unfoldable pub read_rest : ℕ → ℕ → ℕ → ℕ → ℕ → Option (List ℕ) × List ℕ → Buf
read_rest magic version type data_len req_id (srv_name, content) = record {
  magic = magic;
  version = version;
  type = code_type type;
  data_len = data_len;
  content = content;
  req_id = req_id;
  srv_name = srv_name;
}

unfoldable pub read_fields : List ℕ → Buf
read_fields (m ∷ v ∷ t ∷ l ∷ r ∷ rest) = read_rest m v t l r (get_name rest)
read_fields cs = read_rest 0 0 0 0 0 (none, [])

pub read-write : (b : Buf) → read_fields (write_fields b) ≡ b
unfolding read_fields write_fields read_rest
read-write b = rw (get-put b.srv_name b.content) (rw (code-type b.type) refl)

abbrev pub plain_codec : Codec
plain_codec = record {
  serialize = λ b. raise (write_fields b);
  parse = λ cs. read_fields (lower cs);
  utf8 = λ name. true;
  parse-serialize = λ b held. ap read_fields (lower-raise (write_fields b)) ∙ read-write b;
}

abbrev pub hello : Protocol
unfolding create
hello = create heart_beat 5 (104 ∷ 0 ∷ 105 ∷ [])

pub hello-IsMade : IsMade hello
unfolding create
hello-IsMade = record { magic = refl; version = refl; data_len = refl; req_id = omega arith }

pub hello-IsUtf8 : IsUtf8 plain_codec hello
unfolding create
hello-IsUtf8 = tt

pub hello-length : length (serialize plain_codec hello) ≡ 9
unfolding serialize raise write_fields put_name create
hello-length = refl

raise-IsText : (cs : List ℕ) → IsText (raise cs)
unfolding raise IsText
raise-IsText [] = tt
raise-IsText (c ∷ cs) = (omega arith, raise-IsText cs)

pub plain-IsText : (p : Protocol) → IsText (serialize plain_codec p)
unfolding serialize
plain-IsText p = raise-IsText (write_fields _)

pub hello-IsText : IsText (serialize plain_codec hello)
hello-IsText = plain-IsText hello

abbrev pub hello_body : List ℕ
hello_body = 171 ∷ 2 ∷ 1 ∷ 4 ∷ 6 ∷ 1 ∷ 105 ∷ 1 ∷ 106 ∷ []

pub hello-body : serialize plain_codec hello ≡ hello_body
unfolding serialize raise write_fields put_name create type_code
hello-body = refl

pub hello-frame : encode plain_codec hello ≡ b'0' ∷ b'0' ∷ b'0' ∷ b'9' ∷ hello_body
unfolding encode header
hello-frame = rw hello-body refl

length-raise : (cs : List ℕ) → length (raise cs) ≡ length cs
unfolding raise
length-raise [] = refl
length-raise (c ∷ cs) = ap suc (length-raise cs)

pub length-plain :
    (cs : List ℕ) → length (serialize plain_codec (create heart_beat 5 cs)) ≡ 6 + length cs
unfolding serialize write_fields put_name create
length-plain cs =
    length-raise (
      write_fields (record {
        magic = 0xaa;
        version = 1;
        type = heart_beat;
        data_len = length cs % u32;
        content = cs;
        req_id = 5;
        srv_name = none;
      }))
    ∙ omega arith
