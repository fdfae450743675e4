-- ===== src/Sys.antt =====
-- What the library takes from the system, wrapped: locks, counters, clocks, signals.
pub mod Lock
pub mod Counter
pub mod Clock
pub mod Signals
pub mod Singleton
pub mod ThreadLocal
pub mod Errors
mod Tests
