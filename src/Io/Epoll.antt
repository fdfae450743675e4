-- ===== src/Io/Epoll.antt =====
-- src/epoll.cc: registering a descriptor with the kernel and in its context. The kernel is the
-- parameter `Kernel`: what `epoll_ctl` is documented to do to the interest list of one epoll
-- instance. A call that the kernel refuses (out of memory, a bad descriptor) is its answer `false`.
pub mod Sync
pub mod Wakeup
pub mod Setup
use tit_co.Base.{ℕ, ◌≡◌, Bool, true, false, ◌==◌, if◌then◌else◌, Option, none, some, List, [], ◌∷◌}
use tit_co.Io.SockCtx.{
  SockCtx, fresh, add_ev_read, add_ev_write, del_ev_read, del_ev_write, del_event, has_ev_read,
  has_ev_write, has_ev_read_of, has_ev_write_of, has_event,
}

-- The bits of `epoll_event.events` that the code sets; EPOLLET is set always.
pub record Mask : Type 0 where
  pub epollin : Bool
  pub epollout : Bool

pub data Ctl : Type 0 where
  add mod_ del : Ctl

-- `epoll_ctl(ep, op, fd, ev)`: a new state and whether it returned 0. The laws are those of the
-- manual: what succeeds has the effect of its operation, on that descriptor alone; what
-- fails changes nothing. Each operation may fail, for want of memory at least.
pub record Kernel : Type 1 where
  pub State : Type 0
  pub interest : State → ℕ → Option Mask
  pub epoll_ctl : State → Ctl → ℕ → Mask → State × Bool
  pub added :
      (s : State) (fd : ℕ) (m : Mask)
      → (epoll_ctl s add fd m).1 ≡ true
      → interest (epoll_ctl s add fd m).0 fd ≡ some m
  pub modified :
      (s : State) (fd : ℕ) (m : Mask)
      → (epoll_ctl s mod_ fd m).1 ≡ true
      → interest (epoll_ctl s mod_ fd m).0 fd ≡ some m
  pub deleted :
      (s : State) (fd : ℕ) (m : Mask)
      → (epoll_ctl s del fd m).1 ≡ true
      → interest (epoll_ctl s del fd m).0 fd ≡ none
  pub failed :
      (s : State) (op : Ctl) (fd : ℕ) (m : Mask)
      → (epoll_ctl s op fd m).1 ≡ false
      → (epoll_ctl s op fd m).0 ≡ s
  pub others :
      (s : State) (op : Ctl) (fd j : ℕ) (m : Mask)
      → (fd == j) ≡ false
      → interest (epoll_ctl s op fd m).0 j ≡ interest s j

abbrev pub in_only : Mask
in_only = record { epollin = true; epollout = false }

abbrev pub out_only : Mask
out_only = record { epollin = false; epollout = true }

abbrev pub in_out : Mask
in_out = record { epollin = true; epollout = true }

-- The argument that `EPOLL_CTL_DEL` ignores (`nullptr` in the code).
abbrev pub no_mask : Mask
no_mask = record { epollin = false; epollout = false }

module _ (k : Kernel) where
  -- One epoll instance and the contexts of the descriptors (`get_sock_ctx`).
  pub record Epoll : Type 0 where
    pub sched_id : ℕ
    pub kernel : k.State
    pub ctxs : ℕ → SockCtx

  abbrev pub set_ctx : (ℕ → SockCtx) → ℕ → SockCtx → ℕ → SockCtx
  set_ctx f fd c j = if fd == j then c else f j

  -- `AddEvRead`. A descriptor is an `int`: `none` stands for a negative one.
  unfoldable pub add_read : Epoll → Option ℕ → ℕ → Epoll × Bool
  add_read e none co_id = (e, false)
  add_read e (some fd) co_id =
      if has_ev_read (e.ctxs fd)
      then (e, true)
      else (let other = has_ev_write_of e.sched_id (e.ctxs fd) in
          let (s, ok) =
            k.epoll_ctl e.kernel (if other then mod_ else add) fd
              (if other then in_out else in_only) in
          if ok
          then (
            record e {
              kernel = s;
              ctxs = set_ctx e.ctxs fd (add_ev_read e.sched_id co_id (e.ctxs fd));
            },
            true,
          )
          else (record e { kernel = s }, false))

  -- `AddEvWrite`.
  unfoldable pub add_write : Epoll → Option ℕ → ℕ → Epoll × Bool
  add_write e none co_id = (e, false)
  add_write e (some fd) co_id =
      if has_ev_write (e.ctxs fd)
      then (e, true)
      else (let other = has_ev_read_of e.sched_id (e.ctxs fd) in
          let (s, ok) =
            k.epoll_ctl e.kernel (if other then mod_ else add) fd
              (if other then in_out else out_only) in
          if ok
          then (
            record e {
              kernel = s;
              ctxs = set_ctx e.ctxs fd (add_ev_write e.sched_id co_id (e.ctxs fd));
            },
            true,
          )
          else (record e { kernel = s }, false))

  -- `DelEvRead`: the context is cleared before the kernel is asked, and its answer only logged.
  unfoldable pub del_read : Epoll → Option ℕ → Epoll
  del_read e none = e
  del_read e (some fd) =
      if has_ev_read (e.ctxs fd)
      then (let c = del_ev_read (e.ctxs fd) in
          let keep = has_ev_write c in
          let (s, ok) =
            k.epoll_ctl e.kernel (if keep then mod_ else del) fd
              (if keep then out_only else no_mask) in
          record e { kernel = s; ctxs = set_ctx e.ctxs fd c })
      else e

  -- `DelEvWrite`.
  unfoldable pub del_write : Epoll → Option ℕ → Epoll
  del_write e none = e
  del_write e (some fd) =
      if has_ev_write (e.ctxs fd)
      then (let c = del_ev_write (e.ctxs fd) in
          let keep = has_ev_read c in
          let (s, ok) =
            k.epoll_ctl e.kernel (if keep then mod_ else del) fd
              (if keep then in_only else no_mask) in
          record e { kernel = s; ctxs = set_ctx e.ctxs fd c })
      else e

  -- `DelEvent`.
  unfoldable pub del_all : Epoll → Option ℕ → Epoll
  del_all e none = e
  del_all e (some fd) =
      if has_event (e.ctxs fd)
      then (let (s, ok) = k.epoll_ctl e.kernel del fd no_mask in
          record e { kernel = s; ctxs = set_ctx e.ctxs fd (del_event (e.ctxs fd)) })
      else e

  -- The calls of the scheduler on its epoll instance.
  pub data Call : Type 0 where
    adds_read adds_write : Option ℕ → ℕ → Call
    dels_read dels_write dels_all : Option ℕ → Call

  unfoldable pub step : Epoll → Call → Epoll
  unfolding add_read add_write del_read del_write del_all
  step e (adds_read fd co_id) = (add_read e fd co_id).0
  step e (adds_write fd co_id) = (add_write e fd co_id).0
  step e (dels_read fd) = del_read e fd
  step e (dels_write fd) = del_write e fd
  step e (dels_all fd) = del_all e fd

  unfoldable pub run : Epoll → List Call → Epoll
  unfolding step
  run e [] = e
  run e (c ∷ cs) = run (step e c) cs
