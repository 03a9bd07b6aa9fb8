-- ===== src/Pending.antt =====
-- src/http_api/request.rs: the handle of an admitted request.
pub mod Handle
pub mod Closing
mod Tests
