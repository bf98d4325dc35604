-- ===== src/Transport.antt =====
-- src/transport.rs: framed messages over a byte stream.
pub mod Stream
pub mod Header
pub mod Framed
mod Tests
