-- ===== src/Server.antt =====
-- src/server.rs: the protocol core.
mod Tests
pub mod Response
pub mod Initialize
pub mod Session
pub mod Trace
pub mod Negotiation
pub mod Answers
pub mod Tools
pub mod Initialized
pub mod Handshake
pub mod Unserved
pub mod Records
pub mod Privacy
pub mod Wire
