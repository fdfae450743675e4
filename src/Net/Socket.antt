-- ===== src/Net/Socket.antt =====
-- include/net/socket.h and include/net/conn.h: the socket object, what it calls, and where it ends
-- the process.
use tit_co.Base.{
  ℕ, Bool, true, false, not, ◌==◌, if◌then◌else◌, Option, none, some, List, [], ◌∷◌, ◌++◌,
}
use tit_co.Base.Int.{ℤ, pos, negsuc}
use tit_co.Net.Address.{Family, Address, blank}

-- `kInvalidFd` is -1.
abbrev pub is_invalid : ℤ → Bool
is_invalid (pos n) = false
is_invalid (negsuc n) = n == 0

abbrev pub k_invalid_fd : ℤ
k_invalid_fd = negsuc 0

-- `conn` is the descriptor in the `TcpConn` that the pointer owns, or `none` for a null pointer.
pub record Socket : Type 0 where
  pub fd : ℤ
  pub family : Family
  pub conn : Option ℤ
  pub connected : Bool
  pub local_addr : Option Address
  pub remote_addr : Option Address

-- `Create`
unfoldable pub new : Family → Socket
new family = record {
  fd = k_invalid_fd;
  family = family;
  conn = none;
  connected = false;
  local_addr = none;
  remote_addr = none;
}

-- The calls that leave this class, with the descriptor that they are about.
pub data Call : Type 0 where
  opens : Call
  reuses reads writes binds listens accepts connects closes resets : ℤ → Call

-- `TcpConn::Close` and `TcpConn::Reset`: the calls, and the result by the answer of the call.
unfoldable pub conn_close : ℤ → ℤ → List Call × ℤ
conn_close sock answer = if is_invalid sock then ([], pos 0) else (closes sock ∷ [], answer)

unfoldable pub conn_reset : ℤ → ℤ → List Call × ℤ
conn_reset sock answer = if is_invalid sock then ([], pos 0) else (resets sock ∷ [], answer)

-- The destructor of the `TcpConn` that a pointer owns.
unfoldable pub release : Option ℤ → List Call
unfolding conn_close
release none = []
release (some sock) = (conn_close sock (pos 0)).0

-- `getsockname`: the address that a descriptor is bound to; the zeros are what an error leaves.
pub record Names : Type 0 where
  pub name : ℤ → Option Address
  pub zeros : List ℕ

abbrev pub named : Names → Socket → Address
named names s = elim (names.name s.fd) [ none ↦ blank names.zeros s.family | some a ↦ a ]

unfoldable pub init_local_addr : Names → Socket → Socket
unfolding blank
init_local_addr names s = elim s.local_addr [
  | some _ ↦ s
  | none ↦ record s { local_addr = some (named names s) }
]

-- As the code has it, with `getsockname`.
unfoldable pub init_remote_addr : Names → Socket → Socket
unfolding blank
init_remote_addr names s = elim s.remote_addr [
  | some _ ↦ s
  | none ↦ record s { remote_addr = some (named names s) }
]

-- `Init`; the assignment to `conn_` releases the connection that was there.
unfoldable pub init : Names → Socket → ℤ → Socket × List Call
unfolding init_local_addr init_remote_addr release
init names s fd = if is_invalid fd then (s, []) else (
  init_remote_addr names
      (init_local_addr names (record s { fd = fd; conn = some fd; connected = true })),
  reuses fd ∷ release s.conn,
)

-- `CreateSocket`, where `socket` answers `fd`.
unfoldable pub create_socket : Names → Socket → ℤ → Socket × List Call
unfolding init
create_socket names s fd =
    let (next, calls) = init names (record s { fd = fd }) fd in (next, opens ∷ calls)

-- An operation: the socket, the calls, and the result, or `none` where a CHECK fails or a null
-- pointer is used, which ends the process.
abbrev pub Outcome : Type 0 → Type 0
Outcome A = Option (Socket × List Call × A)

-- `conn_->Recv` and its kin, on the connection that `conn_` owns.
abbrev through : Socket → (ℤ → Call) → ℤ → Outcome ℤ
through s call answer = elim s.conn [ none ↦ none | some sock ↦ some (s, call sock ∷ [], answer) ]

-- `Recv` and `Recvn`
unfoldable pub recv : Socket → ℤ → Outcome ℤ
recv s answer = if s.connected then through s reads answer else none

unfoldable pub send : Socket → ℤ → Outcome ℤ
send s answer = if s.connected then through s writes answer else none

abbrev pub is_zero : ℤ → Bool
is_zero (pos n) = n == 0
is_zero (negsuc n) = false

abbrev closed_with : Socket → List Call × ℤ → Socket × List Call × Bool
closed_with s (calls, r) =
    (record s { connected = false; conn = some k_invalid_fd }, calls, is_zero r)

unfoldable pub close : Socket → ℤ → Outcome Bool
unfolding conn_close
close s answer =
    if not s.connected
    then some (s, [], true)
    else elim s.conn [ none ↦ none | some sock ↦ some (closed_with s (conn_close sock answer)) ]

abbrev reset_with : Socket → List Call × ℤ → Socket × List Call × ℤ
reset_with s (calls, r) = (record s { conn = some k_invalid_fd }, calls, r)

unfoldable pub reset : Socket → ℤ → Outcome ℤ
unfolding conn_reset
reset s answer =
    if s.connected
    then elim s.conn [ none ↦ none | some sock ↦ some (reset_with s (conn_reset sock answer)) ]
    else none

-- `if (!is_valid()) CreateSocket();`, where `socket` answers `fd`.
unfoldable pub ensure : Names → Socket → ℤ → Socket × List Call
unfolding create_socket
ensure names s fd = if is_invalid s.fd then create_socket names s fd else (s, [])

unfoldable pub bind : Names → Socket → ℤ → ℤ → Outcome Bool
unfolding ensure
bind names s fd answer =
    let (next, calls) = ensure names s fd in
    if is_invalid next.fd then none else some (next, calls ++ (binds next.fd ∷ []), is_zero answer)

unfoldable pub listen : Socket → ℤ → Outcome Bool
listen s answer = if is_invalid s.fd then none else some (s, listens s.fd ∷ [], is_zero answer)

-- `Accept`: the socket of the client.
unfoldable pub accept : Names → Socket → ℤ → Outcome Socket
unfolding new init
accept names s client_sock =
    let (client, calls) = init names (new s.family) client_sock in
    if is_invalid s.fd then none else some (s, accepts s.fd ∷ calls, client)

-- `after` are the names once the connection is made.
unfoldable pub connect : Names → Names → Socket → ℤ → ℤ → Outcome Bool
unfolding ensure init_local_addr init_remote_addr
connect names after s fd answer =
    let (next, calls) = ensure names s fd in
    if is_invalid next.fd
    then none
    else (let all = calls ++ (connects next.fd ∷ []) in
        if is_zero answer
        then some (init_remote_addr after (init_local_addr after next), all, true)
        else some (next, all, false))
