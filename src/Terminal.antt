-- ===== src/Terminal.antt =====
-- src/responses_terminal.rs: the terminal events of a Responses stream.
pub mod Kind
pub mod Event
pub mod Validated
pub mod Total
pub mod Capacity
pub mod Retry
pub mod Rewritten
mod Tests
