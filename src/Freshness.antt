-- ===== src/Freshness.antt =====
-- src-tauri/src/browser_freshness.rs: whether an import is the latest capture, and what a capture offers.
pub mod Sections
pub mod Project
pub mod Available
pub mod Sound
pub mod Offers
mod Examples
