-- ===== src/Store.antt =====
-- crates/pathhydra-store: the durable records and the catalog that keeps them.
pub mod Codec
pub mod Errors
pub mod Batch
pub mod Family
pub mod Catalog
