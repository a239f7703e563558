-- ===== src/Spec.antt =====
-- core/src/spec.rs: the AgentSpec, its paths, its disk and its checks.
pub mod Types
pub mod Ports
pub mod Disk
pub mod Paths
pub mod Container
pub mod Resolve
pub mod Urls
pub mod Resources
pub mod AgentToAgent
pub mod Checks
mod Examples
