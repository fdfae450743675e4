-- ===== src/Net/Server.antt =====
-- include/net/tcp.h and src/net/tcp.cc: how a server starts, and its loop of accepts.
use mathlib.Core.Option
use tit_co.Base.{
  map, ℕ, Bool, true, false, ◌≡◌, refl, if◌then◌else◌, Option, none, some, List, [], ◌∷◌, ◌++◌,
  arith,
}
use tit_co.Base.Int.{ℤ, pos}
use tit_co.Net.Address.{Address}
use tit_co.Net.Socket.{
  Socket, new, Names, Call, accepts, init, recv, bind, listen, accept, k_invalid_fd,
}

-- `delegate_` is only asked whether there is one.
pub record TcpServer : Type 0 where
  pub addr : Address
  pub sock : Socket
  pub delegate : Bool
  pub stop : Bool

-- The constructor, with `BaseServer::Bind` where there is a delegate.
unfoldable pub create : Address → Bool → TcpServer
unfolding new
create addr delegate = record {
  addr = addr;
  sock = new addr.family;
  delegate = delegate;
  stop = false;
}

-- What a server does: calls of its socket, calls of the delegate, and coroutines that it starts.
pub data Act : Type 0 where
  does_calls : List Call → Act
  on_bind on_listen starts_loop : Act
  starts_conn : Socket → Act

abbrev pub tells : Bool → Act → List Act
tells delegate act = if delegate then act ∷ [] else []

-- `sock_->Listen()` and what follows it; the result is not used.
abbrev pub then_listen :
    TcpServer → List Act → Option (Socket × List Call × Bool) → Option (TcpServer × List Act)
then_listen t acts none = none
then_listen t acts (some (s, calls, ok)) =
    some (record t { sock = s }, acts ++ (does_calls calls ∷ tells t.delegate on_listen))

abbrev pub then_bind :
    TcpServer → ℤ → Option (Socket × List Call × Bool) → Option (TcpServer × List Act)
unfolding listen
then_bind t answer none = none
then_bind t answer (some (s, calls, ok)) =
    then_listen t (does_calls calls ∷ tells t.delegate on_bind) (listen s answer)

-- `InitSock`, by the answers of `socket`, `bind` and `listen`.
unfoldable pub init_sock : Names → TcpServer → ℤ → ℤ → ℤ → Option (TcpServer × List Act)
unfolding then_bind bind
init_sock names t fd bound listening = then_bind t listening (bind names t.sock fd bound)

abbrev pub and_loop : Option (TcpServer × List Act) → Option (TcpServer × List Act)
and_loop none = none
and_loop (some (t, acts)) = some (t, acts ++ (starts_loop ∷ []))

unfoldable pub start : Names → TcpServer → ℤ → ℤ → ℤ → Option (TcpServer × List Act)
unfolding init_sock
start names t fd bound listening = and_loop (init_sock names t fd bound listening)

-- `Exit`, whose body is empty.
unfoldable pub exit : TcpServer → TcpServer
exit t = t

abbrev pub accepted :
    Bool → Option (Socket × List Call × Socket) → Option (List Act) → Option (List Act)
accepted delegate none more = none
accepted delegate (some (s, calls, client)) none = none
accepted delegate (some (s, calls, client)) (some acts) =
    some (does_calls calls ∷ tells delegate (starts_conn client) ++ acts)

-- `Loop`, by the answers of `accept`; `stop_` is never set.
unfoldable pub loop : Names → TcpServer → List ℤ → Option (List Act)
unfolding accept
loop names t [] = some []
loop names t (answer ∷ answers) =
    let more = loop names t answers in
    if t.stop then some [] else accepted t.delegate (accept names t.sock answer) more

-- The sockets that the loop starts coroutines for.
unfoldable pub clients : List Act → List Socket
clients [] = []
clients (starts_conn s ∷ acts) = s ∷ clients acts
clients (does_calls calls ∷ acts) = clients acts
clients (on_bind ∷ acts) = clients acts
clients (on_listen ∷ acts) = clients acts
clients (starts_loop ∷ acts) = clients acts

-- `Start` of a new server goes the same way to the end, the loop of accepts included, whatever
-- `bind` and `listen` answer: a port that is taken stops nothing.
pub start_heedless :
    (names : Names) (addr : Address) (delegate : Bool) (fd bound listening : ℤ)
    → start names (create addr delegate) fd bound listening
      ≡ start names (create addr delegate) fd (pos 0) (pos 0)
unfolding start create init_sock bind listen
start_heedless names addr delegate fd bound listening = ground arith

accept_lem :
    (names : Names) (s : Socket) (answer : ℤ) (d : ℕ)
    → s.fd ≡ pos d
    → accept names s answer
      ≡ some (
        s,
        accepts (pos d) ∷ (init names (new s.family) answer).1,
        (init names (new s.family) answer).0,
      )
unfolding accept
accept_lem names s answer d e = ground arith

accepted-clients :
    (s client : Socket) (calls : List Call) (more : Option (List Act)) (rest : List Socket)
    → Option.map clients more ≡ some rest
    → Option.map clients (accepted true (some (s, calls, client)) more) ≡ some (client ∷ rest)
unfolding clients
accepted-clients s client calls none rest h = absurd (cc)
accepted-clients s client calls (some acts) rest h = cc

loop-clients :
    (names : Names) (t : TcpServer) (answers : List ℤ) (d : ℕ)
    → t.stop ≡ false
    → t.delegate ≡ true
    → t.sock.fd ≡ pos d
    → Option.map clients (loop names t answers)
      ≡ some (map (λ a. (init names (new t.sock.family) a).0) answers)
unfolding loop clients
loop-clients names t [] d h k e = refl
loop-clients names t (answer ∷ answers) d h k e =
    rw (h, k, accept_lem names t.sock answer d e)
      (accepted-clients t.sock (init names (new t.sock.family) answer).0 _ (loop names t answers) _
        (loop-clients names t answers d h k e))

-- A server with a delegate and a listening socket starts one coroutine for every answer of
-- `accept`, in order, on a new socket that holds that answer. For a failed accept the socket is not
-- connected, so that the first `Recv` of its coroutine fails its CHECK and ends the process.
pub loop_lem :
    (names : Names) (t : TcpServer) (answers : List ℤ) (d client : ℕ) (r : ℤ)
    → t.stop ≡ false
    → t.delegate ≡ true
    → t.sock.fd ≡ pos d
    → let client_of = λ (a : ℤ). (init names (new t.sock.family) a).0 in
      (Option.map clients (loop names t answers) ≡ some (map client_of answers))
      × ((client_of (pos client)).fd ≡ pos client)
      × ((client_of (pos client)).connected ≡ true)
      × ((client_of k_invalid_fd).connected ≡ false)
      × (recv (client_of k_invalid_fd) r ≡ none)
unfolding init recv new
loop_lem names t answers d client r h k e =
    (loop-clients names t answers d h k e, refl, refl, refl, refl)
