-- ===== src/Sock.antt =====
-- src/sock.cc: the calls of a coroutine on a socket, which retry the system call until it is done,
-- waiting on an `IOEvent` while the socket is not ready. What the kernel and the event answer is an
-- argument: a list with one entry for each round of a loop. `none` is a loop that still runs when
-- the list ends.
pub mod Streams
pub mod Sends
pub mod Frames
pub mod Longest
pub mod Ends
mod Tests
use tit_co.Base.{
  ℕ, ◌-◌, ◌+◌, ◌==◌, if◌then◌else◌, Bool, true, false, Option, none, some, List, [], ◌∷◌, ◌++◌,
  length, take, drop,
}

-- One round: the system call gave something; `errno` was EAGAIN or EWOULDBLOCK, and so `ev.wait`
-- ran and gave this; it was EINTR; it was another.
pub data Round {ℓ} (A : Type ℓ) : Type ℓ where
  gave : A → Round A
  blocked : Bool → Round A
  interrupted : Round A
  refused : ℕ → Round A

-- What a call returns: a number, or -1.
pub data Ret : Type 0 where
  ok : ℕ → Ret
  minus : Ret

-- The end of a call that reads: its result, what it wrote at `buf`, and the rounds it left.
pub record Got : Type 0 where
  pub ret : Ret
  pub buf : List ℕ
  pub rest : List (Round (List ℕ))

-- `recv`. `::recv` gave bytes, none of them at the end of the stream.
unfoldable pub recv : List (Round (List ℕ)) → Option Got
recv [] = none
recv (gave bytes ∷ rs) = some (record { ret = ok (length bytes); buf = bytes; rest = rs })
recv (blocked true ∷ rs) = recv rs
recv (blocked false ∷ rs) = some (record { ret = minus; buf = []; rest = rs })
recv (interrupted ∷ rs) = recv rs
recv (refused errno ∷ rs) = some (record { ret = minus; buf = []; rest = rs })

-- `recvfrom` has the same loop around `::recvfrom`.
unfoldable pub recvfrom : List (Round (List ℕ)) → Option Got
unfolding recv
recvfrom rs = recv rs

-- The loop of `recvn`, with `n`, `remain`, and what stands before `s` in the buffer.
unfoldable pub recvn_loop : ℕ → ℕ → List ℕ → List (Round (List ℕ)) → Option Got
recvn_loop n remain buf [] = none
recvn_loop n remain buf (gave bytes ∷ rs) =
    let more = recvn_loop n (remain - length bytes) (buf ++ bytes) rs in
    if length bytes == remain
    then some (record { ret = ok n; buf = buf ++ bytes; rest = rs })
    else (if length bytes == 0 then some (record { ret = ok 0; buf = buf; rest = rs }) else more)
recvn_loop n remain buf (blocked true ∷ rs) = recvn_loop n remain buf rs
recvn_loop n remain buf (blocked false ∷ rs) = some (record { ret = minus; buf = buf; rest = rs })
recvn_loop n remain buf (interrupted ∷ rs) = recvn_loop n remain buf rs
recvn_loop n remain buf (refused errno ∷ rs) = some (record { ret = minus; buf = buf; rest = rs })

unfoldable pub recvn : ℕ → List (Round (List ℕ)) → Option Got
unfolding recvn_loop
recvn n rs = recvn_loop n n [] rs

-- The end of a call that writes: its result, the bytes that the kernel took, in order, and the
-- rounds it left.
pub record Put : Type 0 where
  pub ret : Ret
  pub taken : List ℕ
  pub rest : List (Round ℕ)

-- The loop of `send`: `::send` took so many of the bytes from `s` on.
unfoldable pub send_loop : ℕ → List ℕ → List ℕ → List (Round ℕ) → Option Put
send_loop n taken s [] = none
send_loop n taken s (gave r ∷ rs) =
    let more = send_loop n (taken ++ take r s) (drop r s) rs in
    if r == length s
    then some (record { ret = ok n; taken = taken ++ take r s; rest = rs })
    else more
send_loop n taken s (blocked true ∷ rs) = send_loop n taken s rs
send_loop n taken s (blocked false ∷ rs) = some (record { ret = minus; taken = taken; rest = rs })
send_loop n taken s (interrupted ∷ rs) = send_loop n taken s rs
send_loop n taken s (refused errno ∷ rs) = some (record { ret = minus; taken = taken; rest = rs })

unfoldable pub send : List ℕ → List (Round ℕ) → Option Put
unfolding send_loop
send buf rs = send_loop (length buf) [] buf rs

-- `sendto` has the same loop around `::sendto`.
unfoldable pub sendto : List ℕ → List (Round ℕ) → Option Put
unfolding send_loop
sendto buf rs = send_loop (length buf) [] buf rs

-- `accept`: the descriptor of the connection. Its `ev.wait` has no time limit and its answer is not
-- looked at.
unfoldable pub accept : List (Round ℕ) → Option Ret
accept [] = none
accept (gave connfd ∷ rs) = some (ok connfd)
accept (blocked waited ∷ rs) = accept rs
accept (interrupted ∷ rs) = accept rs
accept (refused errno ∷ rs) = some minus

-- A round of `connect`: done; EINPROGRESS, with what `ev.wait` gave and what `getsockopt` found,
-- `none` if it failed; EINTR; another error.
pub data Attempt : Type 0 where
  connected : Attempt
  in_progress : Bool → Option ℕ → Attempt
  cut : Attempt
  denied : ℕ → Attempt

abbrev so_error : Option ℕ → Ret
so_error none = minus
so_error (some err) = if err == 0 then ok 0 else minus

unfoldable pub connect : List Attempt → Option Ret
connect [] = none
connect (connected ∷ ts) = some (ok 0)
connect (in_progress waited err ∷ ts) = some (if waited then so_error err else minus)
connect (cut ∷ ts) = connect ts
connect (denied errno ∷ ts) = some minus
