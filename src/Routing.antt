-- ===== src/Routing.antt =====
-- crates/pathhydra-routing: profiles, requests, and the exact CPU search.
pub mod Float64
pub mod Profile
pub mod Request
pub mod Topology
pub mod Cpu
