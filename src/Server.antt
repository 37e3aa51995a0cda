-- ===== src/Server.antt =====
-- pkg/server: the protocol servers.
pub mod Options
pub mod Ids
pub mod Dns
pub mod Http
pub mod Targets
pub mod Ftp
pub mod Smtp
pub mod Ldap
pub mod Acme
pub mod Challenges
pub mod Watching
