-- ===== src/Net/Replies.antt =====
-- include/net/server.h and include/protocol/protocol_handler.h: `NetworkServer`, whose one request
-- and one response are shared by the coroutines of all connections.
use tit_co.Base.{
  ℕ, Bool, true, false, ◌==◌, if◌then◌else◌, ◌≡◌, ◌≢◌, ◌⊎◌, refl, ◌∙◌, Option, none, some, List, [],
  ◌∷◌, ◌++◌, arith,
}
use tit_co.Rpc.Message.{Codec, Protocol}
use tit_co.Rpc.Frame.{
  Recv, bytes, closed, error, atoi, decode, Received, nothing, message, negative_size,
}
use tit_co.Rpc.Server.{Provider, Answer, silent, breaks, sets, on_new_conn}

-- Where a coroutine is: not in `OnNewConn`; in the first `Recvn` of `RecvProtocol`; in the second
-- one, for a body of that length; or past undefined behaviour (an array of negative size, a text of a
-- null pointer). The number is the socket
-- that the `Recvn` reads.
pub data Pc : Type 0 where
  outside : Pc
  reads_header : ℕ → Pc
  reads_body : ℕ → ℕ → Pc
  undefined : Pc

-- Sockets are numbered by their connections. `request_socket` is `req_.socket_`.
pub record NetworkServer : Type 0 where
  pub request_socket : ℕ
  pub response_socket : ℕ
  pub resp_protocol : Option Protocol
  pub error_flag : ℕ
  pub connected : ℕ → Bool
  pub pcs : ℕ → Pc
  pub replies : List (ℕ × Protocol)

abbrev pub at : {A : Type 0} → (ℕ → A) → ℕ → A → ℕ → A
at f i v j = if i == j then v else f j

-- `enters`: the coroutine of a connection calls `OnNewConn` up to the first `Recvn`; `gets`: its
-- `Recvn` returns with this.
pub data Event : Type 0 where
  enters : ℕ → Event
  gets : ℕ → Recv → Event

module _ {P : Type 0} (codec : Codec) (provider : Provider P) where
  -- `resp_.Send()`; `SendProtocol` sends nothing for a null pointer.
  unfoldable pub send : NetworkServer → NetworkServer
  send s = elim s.resp_protocol [
    | none ↦ s
    | some r ↦ record s { replies = s.replies ++ ((s.response_socket, r) ∷ []) }
  ]

  -- Past the provider's `OnNewConn`: the response is set, if there is one, and sent, unless the
  -- request failed.
  abbrev after_answer : NetworkServer → ℕ → Bool → Answer → NetworkServer
  unfolding send
  after_answer s c failed silent = if failed then s else send s
  after_answer s c failed (sets r) =
      let answered = record s { resp_protocol = some r } in
      if failed then answered else send answered
  after_answer s c failed breaks = record s { pcs = at s.pcs c undefined }

  -- From the end of `RecvProtocol` to the end of `OnNewConn`.
  unfoldable pub finish : NetworkServer → ℕ → Received → NetworkServer
  unfolding on_new_conn send
  finish s c (nothing closes) =
      let socket_closed =
        if closes then record s { connected = at s.connected s.request_socket false } else s in
      record socket_closed { error_flag = 1; pcs = at s.pcs c outside }
  finish s c (message p) =
      let failed = s.error_flag == 1 in
      after_answer (record s { pcs = at s.pcs c outside }) c failed (on_new_conn provider failed p)
  finish s c negative_size = record s { pcs = at s.pcs c undefined }

  -- The first `Recvn` has returned a length.
  abbrev sized : NetworkServer → ℕ → Bool × ℕ → NetworkServer
  sized s c (minus, n) =
      if n == 0
      then finish s c (nothing false)
      else (if minus
          then finish s c negative_size
          else record s { pcs = at s.pcs c (reads_body s.request_socket n) })

  unfoldable pub step : NetworkServer → Event → NetworkServer
  unfolding finish atoi decode
  step s (enters c) = elim (s.pcs c) [
    | outside ↦
        if s.connected c
        then record s { request_socket = c; response_socket = c; pcs = at s.pcs c (reads_header c) }
        else s
    | _ ↦ s
  ]
  step s (gets c answer) = elim (s.pcs c) [
    | reads_header from ↦ elim answer [
      | bytes len ↦ sized s c (atoi len)
      | closed ↦ finish s c (nothing true)
      | error ↦ finish s c (nothing false)
    ]
    | reads_body from n ↦ elim answer [
      | bytes buf ↦ finish s c (message (decode codec buf n))
      | closed ↦ finish s c (nothing false)
      | error ↦ finish s c (nothing false)
    ]
    | _ ↦ s
  ]

  unfoldable pub run : NetworkServer → List Event → NetworkServer
  unfolding step
  run s [] = s
  run s (e ∷ es) = run (step s e) es

  -- The events of `OnNewConn` for one message of a connection.
  abbrev pub request : ℕ → List ℕ → List ℕ → List Event
  request c len buf = enters c ∷ gets c (bytes len) ∷ gets c (bytes buf) ∷ []

  -- A message of a connection: its header, the length that it gives, its body, and the response.
  pub record Inquiry : Type 0 where
    pub connection : ℕ
    pub size : ℕ
    pub len : List ℕ
    pub buf : List ℕ
    pub response : Protocol

  -- The connection is up, and the message one that the service has a response for.
  pub record IsServed (s : NetworkServer) (m : Inquiry) : Type 0 where
    pub up : s.connected m.connection ≡ true
    pub header : atoi m.len ≡ (false, m.size)
    pub nonempty : m.size ≢ 0
    pub made : on_new_conn provider false (decode codec m.buf m.size) ≡ sets m.response

  abbrev pub requests : List Inquiry → List Event
  requests [] = []
  requests (m ∷ ms) = request m.connection m.len m.buf ++ requests ms

  -- No coroutine is in `OnNewConn`, no request has failed, and these connections are up.
  record IsIdle (s : NetworkServer) (up : ℕ → Bool) : Type 0 where
    outsiders : (j : ℕ) → s.pcs j ≡ outside
    fine : s.error_flag ≢ 1
    connected : s.connected ≡ up

  step_silenced :
      (s : NetworkServer) (e : Event)
      → s.error_flag ≡ 1
      → ((step s e).error_flag ≡ 1) × ((step s e).replies ≡ s.replies)
  unfolding step finish send on_new_conn
  step_silenced s (enters c) h = ground arith
  step_silenced s (gets c answer) h = ground arith

  run_silenced :
      (es : List Event) (s : NetworkServer) → s.error_flag ≡ 1 → (run s es).replies ≡ s.replies
  unfolding run
  run_silenced [] s h = refl
  run_silenced (e ∷ es) s h =
      let (still, same) = step_silenced s e h in run_silenced es (step s e) still ∙ same

  failure :
      (s : NetworkServer) (c from : ℕ) (broken : Recv)
      → s.pcs c ≡ reads_header from
      → (broken ≡ closed) ⊎ (broken ≡ error)
      → ((step s (gets c broken)).error_flag ≡ 1) × ((step s (gets c broken)).replies ≡ s.replies)
  unfolding step finish
  failure s c from broken h how = ground arith

  -- Once the first read of a message has come to the end of its connection, or has failed, the
  -- server answers nothing more, on no connection and whatever requests come: the error stays in
  -- the request that all connections share.
  pub error_silences :
      (es : List Event) (s : NetworkServer) (c from : ℕ) (broken : Recv)
      → s.pcs c ≡ reads_header from
      → (broken ≡ closed) ⊎ (broken ≡ error)
      → (run s (gets c broken ∷ es)).replies ≡ s.replies
  unfolding run
  error_silences es s c from broken at_header how =
      let (raised, same) = failure s c from broken at_header how in
      run_silenced es (step s (gets c broken)) raised ∙ same

  -- Two connections of which the second is served while the first waits for the length of its
  -- message: the body of the first one's message is then read from the second one's socket, and the
  -- answer to it goes there.
  pub reply_misrouted :
      (s : NetworkServer) (a b n : ℕ) (len buf : List ℕ) (r : Protocol)
      → a ≢ b
      → s.pcs a ≡ outside
      → s.connected a ≡ true
      → s.pcs b ≡ outside
      → s.connected b ≡ true
      → s.error_flag ≢ 1
      → atoi len ≡ (false, n)
      → n ≢ 0
      → on_new_conn provider false (decode codec buf n) ≡ sets r
      → let before_body = run s (enters a ∷ enters b ∷ gets a (bytes len) ∷ []) in
        (before_body.pcs a ≡ reads_body b n)
        × ((step before_body (gets a (bytes buf))).replies ≡ s.replies ++ ((b, r) ∷ []))
  unfolding run step finish send
  reply_misrouted s a b n len buf r ne oa ca ob cb fine size sized made = ground arith
