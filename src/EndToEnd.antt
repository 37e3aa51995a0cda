-- ===== src/EndToEnd.antt =====
-- A session from its registration (pkg/server) to what the client makes of its poll (pkg/client),
-- through the storage (pkg/storage).
pub mod Sessions
pub mod Adding
pub mod Registering
pub mod Delivery
pub mod Polls
pub mod Shared
