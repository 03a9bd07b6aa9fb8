-- ===== src/Http.antt =====
-- src/http_api.rs: the HTTP handlers of the relay.
pub mod Normalize
pub mod Normalized
pub mod Relay
pub mod Restored
pub mod Settled
pub mod Responses
pub mod Applies
pub mod Opened
pub mod ChatRelay
pub mod ChatSettled
pub mod Tests
