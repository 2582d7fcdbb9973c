-- ===== src/Run/Published.antt =====
-- A run of crates/benchplane-core/src/run.rs that gives a result has published a complete bundle,
-- whose run, attempt and journal pass the checks of crates/benchplane-core/src/evidence.rs.
use benchplane.Run.State.{State}
