-- ===== src/Chat.antt =====
-- src/chat.rs: the conversion of Responses events to Chat Completions.
pub mod Upstream
pub mod Output
pub mod Request
pub mod Stream
pub mod Terminal
pub mod Metadata
pub mod Status
mod Tests
