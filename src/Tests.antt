-- ===== src/Tests.antt =====
-- Runs of the modelled code on concrete inputs, and instances of the theorems at them.
mod Routing
mod Core
mod Subgraph
mod Engine
mod Store
mod Catalog
mod Removal
mod Lifecycle
mod Retirement
