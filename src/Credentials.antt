-- ===== src/Credentials.antt =====
-- src/credentials.rs: the upstream credentials and their refresh.
pub mod Refresh
pub mod System
pub mod Once
pub mod Update
mod Tests
