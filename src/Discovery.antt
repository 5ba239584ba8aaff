-- ===== src/Discovery.antt =====
-- backend/internal/discovery/manager.go: the scans of networks.
pub mod Hosts
pub mod Scope
pub mod Run
pub mod Outcome
pub mod Register
