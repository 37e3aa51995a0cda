-- ===== src/Tests.antt =====
-- Small instances of the theorems, and what they are evaluated at.
mod World
mod StorageCalls
mod SharedBuffers
mod SharedPolls
mod Settings
mod Servers
mod Http
mod Pages
mod Dns
mod Clients
mod Deliveries
mod Registrations
mod Programs
mod Certificates
mod Interrupts
