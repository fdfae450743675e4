-- ===== src/Net.antt =====
-- include/net and src/net: addresses, connections, socket objects, and the servers above them.
pub mod Address
pub mod Endpoint
pub mod Socket
pub mod Closing
pub mod Server
pub mod Replies
mod Tests
