-- ===== src/Config.antt =====
-- src/config.rs: the configuration and the models that it prices.
pub mod Types
pub mod Keys
pub mod Validate
pub mod Models
pub mod Validated
pub mod Capped
pub mod Applied
pub mod Plain
pub mod Samples
mod Tests
