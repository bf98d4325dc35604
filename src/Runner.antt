-- ===== src/Runner.antt =====
-- src/runner.rs: which door a server opens, and what drives a connection.
pub mod Pump
pub mod Opening
pub mod Serve
pub mod Stdio
pub mod Websocket
pub mod Run
pub mod Unix
pub mod Upgrade
mod Tests
