-- ===== src/Rpc.antt =====
-- The messages of the RPC layer and their way over a connection.
pub mod Message
pub mod Frame
pub mod RoundTrip
pub mod Limits
pub mod Client
pub mod Loops
pub mod Server
pub mod Plain
pub mod Hello
pub mod Calls
pub mod Casts
mod Tests
