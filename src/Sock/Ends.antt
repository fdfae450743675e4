-- ===== src/Sock/Ends.antt =====
-- `close` and `shutdown` of src/sock.cc: what they do to the registrations of the descriptor, and
-- which system call they make.
use tit_co.Base.{
  ℕ, ◌≡◌, refl, Bool, true, false, ◌==◌, ltb, if◌then◌else◌, Option, none, some, List, [], ◌∷◌,
  arith,
}
use tit_co.Io.SockCtx.{SockCtx, del_ev_read, del_ev_write, del_event, has_event, has_ev_write}
use tit_co.Io.Epoll.{Kernel, Epoll, del_all}
use tit_co.Io.Event.{ev_read, ev_write, del_io_event}

-- SHUT_RD, SHUT_WR and SHUT_RDWR
pub data How : Type 0 where
  shut_rd shut_wr shut_rdwr : How

abbrev pub how : ℕ → How
how c = if c == b'r' then shut_rd else (if c == b'w' then shut_wr else shut_rdwr)

-- `shutdown` on a thread without a scheduler, by the context of the descriptor: the branch for both
-- directions takes away the reader alone.
unfoldable pub shutdown_alone : ℕ → SockCtx → SockCtx
shutdown_alone c ctx =
    if c == b'r' then del_ev_read ctx else (if c == b'w' then del_ev_write ctx else del_ev_read ctx)

module _ (k : Kernel) where
  -- With one; a negative descriptor goes straight to the system call.
  unfoldable pub shutdown : Epoll k → Option ℕ → ℕ → Epoll k
  unfolding del_io_event del_all
  shutdown e none c = e
  shutdown e (some fd) c =
      if c == b'r'
      then del_io_event k e (some fd) ev_read
      else (if c == b'w' then del_io_event k e (some fd) ev_write else del_all k e (some fd))

  -- `close` up to the system call, and for how long it sleeps before that.
  unfoldable pub close : Epoll k → Option ℕ → ℕ → Epoll k × Option ℕ
  unfolding del_all
  close e none ms = (e, none)
  close e (some fd) ms = (del_all k e (some fd), (if ltb 0 ms then some ms else none))

-- `close` on a thread without a scheduler.
unfoldable pub close_alone : SockCtx → SockCtx
close_alone ctx = del_event ctx

-- The loop around `::close`, on what each call came to: 0, EINTR, or another error.
pub data Closing : Type 0 where
  done : Closing
  again : Closing
  broken : ℕ → Closing

unfoldable pub close_loop : List Closing → Option Bool
close_loop [] = none
close_loop (done ∷ cs) = some true
close_loop (again ∷ cs) = close_loop cs
close_loop (broken errno ∷ cs) = some false

-- `close`, with a scheduler or without, and with one `shutdown` of both directions leave nobody
-- registered; without one, `shutdown` of both directions leaves the writer as it was.
ends_lem :
    (k : Kernel) (e : Epoll k) (fd ms c : ℕ) (ctx : SockCtx)
    → how c ≡ shut_rdwr
    → (has_event ((close k e (some fd) ms).0.ctxs fd) ≡ false)
      × (has_event (close_alone ctx) ≡ false)
      × (has_event ((shutdown k e (some fd) c).ctxs fd) ≡ false)
      × (has_ev_write (shutdown_alone c ctx) ≡ has_ev_write ctx)
unfolding close close_alone shutdown del_all shutdown_alone
ends_lem k e fd ms c ctx h = (ground arith, refl, ground arith, ground arith)
