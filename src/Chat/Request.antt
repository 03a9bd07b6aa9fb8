-- ===== src/Chat/Request.antt =====
-- src/chat.rs: the conversion of Chat Completions requests.
pub mod Fields
pub mod Text
pub mod Messages
pub mod Tools
pub mod Convert
pub mod Streaming
pub mod Sent
pub mod Supported
pub mod Tests
