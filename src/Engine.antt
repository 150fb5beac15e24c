-- ===== src/Engine.antt =====
-- crates/pathhydra-engine: the controllers around the routing of requests.
pub mod Admission
pub mod Cancellation
pub mod Lifecycle
pub mod Retirement
