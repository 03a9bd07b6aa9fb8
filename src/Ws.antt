-- ===== src/Ws.antt =====
-- src/ws.rs: the WebSocket sessions.
pub mod Prepare
pub mod Prepared
pub mod Session
pub mod Handlers
pub mod Rows
pub mod Closed
pub mod Ended
pub mod Accepted
pub mod Runs
pub mod Tests
