-- ===== src/Io/Event.antt =====
-- src/io_event.cc with the event operations of src/scheduler.cc that it calls, and the dispatch
-- of one `epoll_event` by the loop of src/scheduler.cc.
pub mod Laws
use tit_co.Base.{
  ℕ, ◌≡◌, Bool, true, false, ◌||◌, not, ◌==◌, if◌then◌else◌, Option, none, some, List, [], ◌∷◌,
  ◌++◌, arith,
}
use tit_co.Base.Word.{minus_one}
use tit_co.Io.SockCtx.{SockCtx, get_read_co_id, get_write_co_id}
use tit_co.Io.Epoll.{Kernel, Epoll, add_read, add_write, del_read, del_write}

pub data IoEventT : Type 0 where
  ev_read ev_write : IoEventT

module _ (k : Kernel) where
  -- `SchedulerImpl::AddIoEvent`; `co_id` is `running_co_->id_`.
  unfoldable pub add_io_event : Epoll k → Option ℕ → IoEventT → ℕ → Epoll k × Bool
  add_io_event e fd ev_read co_id = add_read k e fd co_id
  add_io_event e fd ev_write co_id = add_write k e fd co_id

  -- `SchedulerImpl::DelIoEvent(fd, event)`: the branch of a read event does not return.
  unfoldable pub del_io_event : Epoll k → Option ℕ → IoEventT → Epoll k
  del_io_event e fd ev_read = del_write k (del_read k e fd) fd
  del_io_event e fd ev_write = del_write k e fd

  -- `class IOEvent`
  pub record IoEvent : Type 0 where
    pub fd : Option ℕ
    pub ev : IoEventT
    pub has_ev : Bool

  abbrev pub new : Option ℕ → IoEventT → IoEvent
  new fd ev = record { fd = fd; ev = ev; has_ev = false }

  -- The destructor.
  unfoldable pub destroy : IoEvent → Epoll k → Epoll k
  unfolding del_io_event
  destroy v e = if v.has_ev then del_io_event e v.fd v.ev else e

  -- `IOEvent::wait` up to the `Yield`: whether it yields, and with what timer.
  pub data Wait : Type 0 where
    failed : Wait
    yields : Option ℕ → Wait

  abbrev pub yield_for : ℕ → Wait
  yield_for ms = if ms == minus_one then yields none else yields (some ms)

  unfoldable pub wait : IoEvent → Epoll k → ℕ → ℕ → IoEvent × Epoll k × Wait
  unfolding add_io_event
  wait v e co_id ms =
      if v.has_ev
      then (v, e, yield_for ms)
      else (let (e', ok) = add_io_event e v.fd v.ev co_id in
          (record v { has_ev = ok }, e', (if ok then yield_for ms else failed)))

  -- What it returns after the `Yield`, from the scheduler's flag; `false` comes with ETIMEDOUT.
  unfoldable pub resumed : ℕ → Bool → Bool
  resumed ms is_timeout = if ms == minus_one then true else not is_timeout

-- The bits of `ev.events` that the loop looks at.
pub record Events : Type 0 where
  pub epollin : Bool
  pub epollout : Bool
  pub rest : Bool

abbrev or_events : Events → Events → Events
or_events a b = record {
  epollin = a.epollin || b.epollin;
  epollout = a.epollout || b.epollout;
  rest = a.rest || b.rest;
}

abbrev nonzero : Events → Bool
nonzero a = a.epollin || a.epollout || a.rest

abbrev epollin_bit : Events
epollin_bit = record { epollin = true; epollout = false; rest = false }

abbrev epollout_bit : Events
epollout_bit = record { epollin = false; epollout = true; rest = false }

abbrev resume_unless_none : ℕ → List ℕ
resume_unless_none co_id = if co_id == minus_one then [] else co_id ∷ []

-- The coroutines that the loop resumes for an event, in order. `read_co` and `write_co` begin at
-- 0; the tests are `ev.events | EPOLLIN` and `ev.events | EPOLLOUT`, as the code has them.
unfoldable pub dispatch : ℕ → Events → SockCtx → List ℕ
dispatch id events c =
    resume_unless_none (if nonzero (or_events events epollin_bit) then get_read_co_id id c else 0)
    ++ resume_unless_none
        (if nonzero (or_events events epollout_bit) then get_write_co_id id c else 0)

-- Whatever an event reports, the loop resumes the waiting reader and the waiting writer of the
-- descriptor, in this order, as far as they belong to the scheduler: the bits of the event are not
-- looked at. So a coroutine that waits to write is resumed by an event that reports only input.
pub dispatch_lem :
    (id : ℕ) (events : Events) (c : SockCtx)
    → dispatch id events c
      ≡ resume_unless_none (get_read_co_id id c) ++ resume_unless_none (get_write_co_id id c)
unfolding dispatch
dispatch_lem id events c = ground arith
