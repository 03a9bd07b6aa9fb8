-- ===== src/Upstream.antt =====
-- src/upstream_headers.rs, src/upstream_ws.rs and src/upstream_http.rs: what goes to the upstream.
pub mod Passthrough
pub mod Lite
pub mod Messages
pub mod Warmed
pub mod Warmup
pub mod Attempts
pub mod Models
pub mod Cached
mod Tests
