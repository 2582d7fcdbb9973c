-- ===== src/Run/Unpublished.antt =====
-- A run of crates/benchplane-core/src/run.rs that fails has published nothing and says so in its
-- records.
use benchplane.Run.State.{State}
use benchplane.Run.Keeps.{Keeps}
