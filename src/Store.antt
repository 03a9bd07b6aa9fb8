-- ===== src/Store.antt =====
-- src/store.rs: the SQLite store of credentials and of the request ledger.
pub mod Decimals
pub mod Times
pub mod Types
pub mod Ledger
pub mod Cost
pub mod Quota
pub mod Requests
pub mod Finalize
pub mod Invariant
pub mod Plain
pub mod Finality
pub mod Reachable
pub mod Alone
pub mod Chosen
pub mod Accounting
pub mod Window
pub mod Exact
pub mod Access
pub mod Saved
pub mod Samples
mod Tests
