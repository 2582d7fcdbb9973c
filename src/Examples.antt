-- ===== src/Examples.antt =====
-- The theorems at concrete inputs.
pub mod Plans
mod Schemas
mod Lifecycles
mod Measurements
mod Supervision
mod Adapters
mod Statistics
pub mod Runs
pub mod Checks
mod Bundles
