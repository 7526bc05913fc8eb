-- ===== src/Reconcile.antt =====
-- src-tauri/src/reconcile.rs: a Canvas capture of some courses merged into the local document.
pub mod Values
pub mod Int
pub mod Time
pub mod Rfc3339
pub mod RoundTrip
pub mod Checks
pub mod References
pub mod Due
pub mod Update
pub mod Courses
pub mod Items
pub mod Archive
pub mod Document
pub mod Coursework
pub mod Frame
pub mod Updated
pub mod Placed
pub mod Survivors
pub mod Growth
pub mod Steps
pub mod Checked
pub mod Ids
pub mod Unique
pub mod Archived
pub mod Reserved
pub mod Safe
pub mod SafeChecks
pub mod SafeUpdate
pub mod SafeItem
pub mod Validated
pub mod SafePlaces
pub mod SafeCourses
pub mod SafeRun
pub mod NoPanic
pub mod SafeTime
pub mod Untouched
mod Sample
mod Examples
mod TimeExamples
pub mod Kept
