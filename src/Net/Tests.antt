-- ===== src/Net/Tests.antt =====
-- The theorems on sockets and servers at concrete inputs.
use tit_co.Base.{
  ℕ, ◌≡◌, refl, inl, true, false, none, some, List, [], ◌∷◌, ◌++◌, length, ◌==◌, if◌then◌else◌,
  arith,
}
use tit_co.Base.Int.{pos, negsuc}
use tit_co.Net.Address.{k_ipv4, Address}
use tit_co.Text.Decimal.{decimal, counted, add_one}
use tit_co.Net.Endpoint.{Inet, to_string, read_endpoint, to_string_init}
use tit_co.Net.Socket.{new, Names, init}
use tit_co.Net.Closing.{
  Op, does_recv, does_send, does_close, does_reset, does_accept, lifetime, IsAccounted, misused,
  closed_once,
}
use tit_co.Net.Server.{TcpServer}
use tit_co.Net.Replies.{
  NetworkServer, outside, reads_header, reads_body, enters, gets, step, run, Inquiry, request,
  error_silences, reply_misrouted,
}
use tit_co.Rpc.Frame.{bytes, closed, atoi, decode, c_string}
use tit_co.Rpc.Message.{Protocol, request_call, response_call, serialize, deserialize}
use tit_co.Rpc.Message as Message
use tit_co.Rpc.Server.{Provider, sets, on_new_conn}
use tit_co.Rpc.Plain.{
  plain_codec, read_fields, lower, raise, write_fields, type_code, read_rest, get_name, put_name,
  code_type,
}

abbrev names : Names
names = record { name = λ fd. none; zeros = 0 ∷ 0 ∷ 0 ∷ 0 ∷ [] }

-- A peer that is read and answered, a new connection that is accepted, a reset, and a close.
abbrev ops : List Op
ops =
    does_recv (pos 4)
    ∷ does_send (pos 2)
    ∷ does_accept (pos 9)
    ∷ does_reset (pos 0)
    ∷ does_recv (negsuc 0)
    ∷ does_close (pos 0)
    ∷ []

closed_once_example :
    IsAccounted 7 false (misused false ops) (lifetime names (init names (new k_ipv4) (pos 7)).0 ops)
closed_once_example = closed_once names k_ipv4 7 ops (tt, (tt, (tt, (tt, (tt, (tt, tt))))))

abbrev server : TcpServer
server = record {
  addr = record { family = k_ipv4; sin_port = 36895; host = 127 ∷ 0 ∷ 0 ∷ 1 ∷ [] };
  sock = (init names (new k_ipv4) (pos 3)).0;
  delegate = true;
  stop = false;
}

server-fd : server.sock.fd ≡ pos 3
unfolding init new
server-fd = refl

-- No service is registered, so that every request is answered with "other".
abbrev provider : Provider ℕ
provider = record { handlers = []; manager = [] }

abbrev idle : NetworkServer
idle = record {
  request_socket = 0;
  response_socket = 0;
  resp_protocol = none;
  error_flag = 0;
  connected = λ c. true;
  pcs = λ c. outside;
  replies = [];
}

abbrev asks : Protocol
unfolding Message.create
asks = Message.create request_call 5 (b'h' ∷ b'i' ∷ [])

abbrev other : Protocol
unfolding Message.create
other = Message.create response_call 5 (b'o' ∷ b't' ∷ b'h' ∷ b'e' ∷ b'r' ∷ [])

abbrev body : List ℕ
unfolding serialize
body = serialize plain_codec asks

abbrev length_text : List ℕ
length_text = b'0' ∷ b'0' ∷ b'0' ∷ b'8' ∷ []

length_text-atoi : atoi length_text ≡ (false, 8)
unfolding atoi
length_text-atoi = refl

body-length : length body ≡ 8
unfolding body asks Message.create serialize lower raise write_fields type_code put_name
body-length = refl

answered : on_new_conn provider false (decode plain_codec body 8) ≡ sets other
unfolding on_new_conn decode c_string deserialize body read_fields lower raise write_fields
    type_code read_rest get_name put_name code_type
answered = refl

-- The message on connection `c`.
abbrev asked : ℕ → Inquiry plain_codec provider
asked c = record { connection = c; size = 8; len = length_text; buf = body; response = other }

-- Connection 3 waits for a message when its peer goes; connection 4 asks.
abbrev waiting : NetworkServer
waiting = record idle {
  request_socket = 3;
  response_socket = 3;
  pcs = λ c. if c == 3 then reads_header 3 else outside;
}

error_silences_example :
    (run plain_codec provider waiting
      (gets 3 closed ∷ request plain_codec provider 4 length_text body)).replies
    ≡ []
error_silences_example =
    error_silences plain_codec provider (request plain_codec provider 4 length_text body) waiting 3
      3 closed refl (inl refl)

reply_misrouted_example :
    let before_body =
      run plain_codec provider idle (enters 3 ∷ enters 4 ∷ gets 3 (bytes length_text) ∷ []) in
    (before_body.pcs 3 ≡ reads_body 4 8)
    × ((step plain_codec provider before_body (gets 3 (bytes body))).replies
        ≡ [] ++ ((4, other) ∷ []))
reply_misrouted_example =
    reply_misrouted plain_codec provider idle 3 4 8 length_text body other (omega arith) refl refl
      refl refl (omega arith) length_text-atoi (omega arith) answered

-- Hosts whose texts are their bytes.
abbrev inet : Inet
inet = record {
  inet_pton = λ family text. some text;
  inet_ntop = λ family host. host;
  pton-ntop = λ family host. refl;
}

abbrev endpoint : Address
endpoint = record { family = k_ipv4; sin_port = 0x5000; host = 127 ∷ 0 ∷ 0 ∷ 1 ∷ [] }

to_string_init_example :
    read_endpoint inet (0 ∷ 0 ∷ 0 ∷ 0 ∷ []) (to_string inet endpoint) ≡ some (endpoint, true)
to_string_init_example = to_string_init inet (0 ∷ 0 ∷ 0 ∷ 0 ∷ []) endpoint refl (omega arith)

-- Its port is 80.
endpoint-text : to_string inet endpoint ≡ 127 ∷ 0 ∷ 0 ∷ 1 ∷ b':' ∷ b'8' ∷ b'0' ∷ []
unfolding to_string decimal counted add_one
endpoint-text = refl
