-- ===== src/Evidence.antt =====
-- crates/benchplane-core/src/evidence.rs: the semantic verification of a bundle's records.
pub mod Error
pub mod Means
pub mod Outcome
pub mod Records
pub mod Lines
pub mod Measurements
pub mod Reports
pub mod Manifest
pub mod Provenance
pub mod Paths
pub mod Files
pub mod Inventory
pub mod Bundle
pub mod Entries
pub mod Consistency
