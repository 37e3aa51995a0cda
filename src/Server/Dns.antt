-- ===== src/Server/Dns.antt =====
-- pkg/server/dns_server.go.
pub mod Types
pub mod Custom
pub mod Handlers
pub mod Serve
pub mod Answers
pub mod Names
