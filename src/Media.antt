-- ===== src/Media.antt =====
-- src-tauri/src/capture_media.rs: MIME types of downloaded Canvas files against their bytes.
pub mod Types
pub mod Scripts
pub mod Sniff
pub mod Verify
pub mod SignIn
pub mod Prolog
pub mod Accepts
pub mod TextPrefix
mod Examples
