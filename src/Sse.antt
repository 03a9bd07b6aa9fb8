-- ===== src/Sse.antt =====
-- src/sse.rs: the reader of server-sent events, which validates terminal events.
pub mod Reader
pub mod Agreement
mod Tests
