-- ===== src/Sessions.antt =====
-- src/http_api/responses_session.rs: the cache of HTTP Responses sessions.
pub mod Key
pub mod Entries
pub mod Cache
pub mod Eviction
pub mod System
pub mod Unique
pub mod Exclusion
pub mod Budget
pub mod Actor
pub mod Respond
pub mod Same
pub mod Conversation
pub mod Kept
pub mod Talk
pub mod Refusals
pub mod Settled
mod Tests
