-- ===== src/Errors.antt =====
-- src/error.rs: the errors that the API returns.
pub mod Api
pub mod Relay
