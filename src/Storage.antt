-- ===== src/Storage.antt =====
-- pkg/storage.
pub mod Lines
pub mod Base64
pub mod Libraries
pub mod Types
pub mod Cipher
pub mod Buffer
pub mod Sessions
pub mod Polling
pub mod Spec
pub mod Refine
pub mod Frame
pub mod Isolation
pub mod Access
