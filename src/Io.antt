-- ===== src/Io.antt =====
-- The I/O side of the scheduler: the per-descriptor contexts of src/sock_ctx.cc, the registration
-- of src/epoll.cc, the wake-up channel, and the events of src/io_event.cc.
pub mod SockCtx
pub mod Epoll
pub mod Event
mod Tests
