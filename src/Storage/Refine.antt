-- ===== src/Storage/Refine.antt =====
-- The shared buffers of pkg/storage/storagedb.go, in memory and on disk, do what Spec says.
pub mod Trim
pub mod Compact
pub mod Departure
pub mod Calls
pub mod Served
pub mod Keys
pub mod Bounds
pub mod Runs
pub mod Histories
