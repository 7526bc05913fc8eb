-- ===== src/History.antt =====
-- src-tauri/src/history.rs: what a refresh has changed in the observed items.
pub mod Items
pub mod Diff
pub mod Keys
pub mod Balance
pub mod Quiet
pub mod Ledger
pub mod Bounded
mod Examples
