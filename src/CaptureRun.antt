-- ===== src/CaptureRun.antt =====
-- src-tauri/src/capture_run.rs and capture_run_lease.rs: the lock and the durable status of a
-- Canvas capture.
pub mod State
pub mod Disk
pub mod Guard
pub mod Lease
pub mod Storage
pub mod Effects
pub mod Order
pub mod Begin
pub mod Runs
pub mod Ends
pub mod Retired
pub mod Cycle
pub mod Registry
pub mod View
pub mod Simulated
pub mod Refines
pub mod Lives
pub mod LeaseEnds
pub mod Leases
mod Examples
mod RegistryExamples
mod LeaseExamples
