-- ===== src/Server/Http.antt =====
-- pkg/server/http_server.go.
pub mod Types
pub mod Sessions
pub mod Endpoints
pub mod Logger
pub mod Pages
pub mod Secrets
pub mod Updates
pub mod Routes
pub mod Dynamic
pub mod Recorder
pub mod Writing
pub mod Sending
pub mod Setup
