-- ===== src/Client.antt =====
-- pkg/client/client.go: the client's states, its channels and its polling loop.
pub mod Lifecycle
pub mod Histories
pub mod Messages
pub mod Registration
pub mod Settings
pub mod Keys
pub mod Creation
