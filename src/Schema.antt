-- ===== src/Schema.antt =====
-- crates/benchplane-schema: the experiment document, its semantic validation, and the records of
-- evidence.
pub mod Float64
pub mod Experiment
pub mod Evidence
pub mod Measurement
pub mod Text
pub mod Validate
pub mod Equality
