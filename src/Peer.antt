-- ===== src/Peer.antt =====
-- peer.go
pub mod Limits
pub mod Outbound
pub mod Schedule
pub mod Calls
pub mod Inbound
mod Tests
pub mod State
pub mod Steps
