-- ===== src/Ical.antt =====
-- src-tauri/src/ical*.rs: the pure normaliser of a Canvas calendar feed.
pub mod Types
pub mod Lines
pub mod Reader
pub mod Events
pub mod Links
pub mod Date
pub mod Observation
pub mod Courses
pub mod Classify
pub mod Normalize
pub mod Bootstrap
pub mod Escapes
pub mod Folding
pub mod LinksSound
pub mod Bounds
pub mod Conserved
pub mod Identities
pub mod Accepted
pub mod Distinct
pub mod Instants
pub mod Scopes
mod Examples
mod FeedExamples
