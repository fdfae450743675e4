-- ===== src/Io/SockCtx.antt =====
-- src/sock_ctx.cc: which coroutine of which scheduler waits to read, and to write, a descriptor.
-- The union members used for a quick clear are never used, so an event is its two words.
use tit_co.Base.{ℕ, Bool, ◌&&◌, ◌||◌, not, ◌==◌, if◌then◌else◌}
use tit_co.Base.Word.{minus_one}

pub record Event : Type 0 where
  pub co_id : ℕ
  pub sched_id : ℕ

pub record SockCtx : Type 0 where
  pub read_ev : Event
  pub write_ev : Event

abbrev pub no_event : Event
no_event = record { co_id = minus_one; sched_id = minus_one }

abbrev pub add_ev_read : ℕ → ℕ → SockCtx → SockCtx
add_ev_read sched_id co_id c = record c { read_ev = record { co_id = co_id; sched_id = sched_id } }

abbrev pub add_ev_write : ℕ → ℕ → SockCtx → SockCtx
add_ev_write sched_id co_id c = record c {
  write_ev = record { co_id = co_id; sched_id = sched_id };
}

abbrev pub del_ev_read : SockCtx → SockCtx
del_ev_read c = record c { read_ev = no_event }

abbrev pub del_ev_write : SockCtx → SockCtx
del_ev_write c = record c { write_ev = no_event }

abbrev pub del_event : SockCtx → SockCtx
del_event c = del_ev_write (del_ev_read c)

-- The constructor runs `DelEvent`, whatever the memory held.
abbrev pub fresh : SockCtx
fresh = record { read_ev = no_event; write_ev = no_event }

abbrev pub has_ev_read : SockCtx → Bool
has_ev_read c = not (c.read_ev.co_id == minus_one)

abbrev pub has_ev_write : SockCtx → Bool
has_ev_write c = not (c.write_ev.co_id == minus_one)

-- The overloads with a scheduler id.
abbrev pub has_ev_read_of : ℕ → SockCtx → Bool
has_ev_read_of sched_id c = sched_id == c.read_ev.sched_id && not (c.read_ev.co_id == minus_one)

abbrev pub has_ev_write_of : ℕ → SockCtx → Bool
has_ev_write_of sched_id c = sched_id == c.write_ev.sched_id && not (c.write_ev.co_id == minus_one)

abbrev pub has_event : SockCtx → Bool
has_event c = has_ev_read c || has_ev_write c

abbrev pub get_read_co_id : ℕ → SockCtx → ℕ
get_read_co_id sched_id c = if sched_id == c.read_ev.sched_id then c.read_ev.co_id else minus_one

abbrev pub get_write_co_id : ℕ → SockCtx → ℕ
get_write_co_id sched_id c = if sched_id == c.write_ev.sched_id then c.write_ev.co_id else minus_one
