-- ===== src/Rpc/Calls/Tests.antt =====
-- The calls of "hello" at concrete inputs.
use tit_co.Base.{true, false, ℕ, zero, suc, ◌≡◌, refl, List, [], ◌∷◌, length}
use tit_co.Base.Int.{ℤ, pos, negsuc}
use tit_co.Rpc.Message.{serialize}
use tit_co.Rpc.Client.{fresh_client}
use tit_co.Rpc.Server.{Provider, register_handler}
use tit_co.Rpc.Hello.{
  HelloProtocol, ProtocolInterface, hello, world, Bufs, hello_name, register_hello,
}
use tit_co.Rpc.Plain.{plain_codec}
use tit_co.Rpc.Casts.{Func, misreading, hello_server, casts_agree}
use tit_co.Rpc.Calls.{call}

-- A number is its sign and its size.
abbrev write_int : ℤ → List ℕ
write_int (pos n) = 0 ∷ n ∷ []
write_int (negsuc n) = 1 ∷ n ∷ []

abbrev read_int : List ℕ → ℤ
read_int (zero ∷ n ∷ []) = pos n
read_int (suc zero ∷ n ∷ []) = negsuc n
read_int cs = pos 0

read-write_int : (i : ℤ) → read_int (write_int i) ≡ i
read-write_int (pos n) = refl
read-write_int (negsuc n) = refl

abbrev bufs : Bufs
bufs = record {
  hello_buf = record {
    serialize = λ n. n;
    parse = λ n. n;
    holds = λ n. true;
    parse-serialize = λ n h. refl;
  };
  world_buf = record {
    serialize = write_int;
    parse = read_int;
    holds = λ n. true;
    parse-serialize = λ i h. read-write_int i;
  };
  misread_name = λ w. [];
  misread_result = λ h. pos 0;
}

-- The handler of test/rpc/rpc_server.cc: the number of bytes of the name.
abbrev count : ProtocolInterface → ProtocolInterface
count (hello h) = world (record { result = pos (length h.name) })
count (world w) = world w

abbrev server : Provider ProtocolInterface
server =
    register_handler hello_name count (record { handlers = []; manager = register_hello bufs [] })

abbrev two_bytes : HelloProtocol
two_bytes = record { name = b'h' ∷ b'i' ∷ [] }

-- A server that counts bytes answers in the same way whatever is read from a wrong object.
abbrev counting : List (List ℕ × Func)
counting = (hello_name, count) ∷ []

casts_agree_example :
    let others = misreading bufs (λ w. b'?' ∷ []) (λ h. negsuc 0) in
    call plain_codec bufs
      (hello_server bufs counting)
      fresh_client
      7
      false
      true
      hello_name
      two_bytes
    ≡ call plain_codec others
        (hello_server others counting)
        fresh_client
        7
        false
        true
        hello_name
        two_bytes
casts_agree_example =
    casts_agree bufs (λ w. b'?' ∷ []) (λ h. negsuc 0) counting plain_codec fresh_client 7 false true
      hello_name two_bytes ((λ h. (record { result = pos (length h.name) }, refl)), tt)
