-- ===== src/Auth.antt =====
-- src/auth.rs: bearer tokens against the configured keys.
pub mod Headers
pub mod Authenticate
pub mod Unique
pub mod Plain
mod Tests
