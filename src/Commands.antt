-- ===== src/Commands.antt =====
-- The two programs (cmd/interactsh-server, cmd/interactsh-client): what they make of their flags.
pub mod Flags
pub mod Server
pub mod Alive
pub mod Certificates
pub mod Client
