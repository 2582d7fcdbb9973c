-- ===== src/Run.antt =====
-- crates/benchplane-core/src/run.rs: of this file how a plan selects its execution, and the records
-- that a run makes of an execution's output.
pub mod State
pub mod Persist
pub mod Sequence
pub mod Success
pub mod Stages
pub mod Finished
pub mod Inputs
pub mod Complete
pub mod Published
pub mod Failures
pub mod Keeps
pub mod Unpublished
use benchplane.Base.{ℕ, String, Bool, not, ◌&&◌, if◌then◌else◌, Result, ok, err}
use benchplane.Schema.Experiment.{
  ResolvedExperiment, ExperimentSpec, ProviderSpec, RuntimeSpec, LocalFakeScenario, is_cpu,
  evidence_format_v1,
}
use benchplane.Schema.Measurement.{EvidenceManifest, ValidityResult}
use benchplane.Execution.{ExecutionOutput}
use benchplane.CpuProbe
use benchplane.LlamaCpp

pub data ExecutionKind : Type 0 where
  -- seed, scenario
  local_fake : ℕ → LocalFakeScenario → ExecutionKind
  cpu_probe : CpuProbe.CpuProbeConfig → ExecutionKind
  llama_cpp : LlamaCpp.LlamaCppConfig → ExecutionKind

-- the code and the message of `RunError::UnsupportedCombination`
abbrev unsupported : String → Result ExecutionKind (String × String)
unsupported message = err ("execution.unsupportedCombination", message)

-- `cuda_available` is what `cuda_package_available`, a constant of the build, returns.
abbrev pub kind_of :
    Bool → ProviderSpec → RuntimeSpec → ExperimentSpec → Result ExecutionKind (String × String)
kind_of cuda_available ProviderSpec.local_fake (RuntimeSpec.local_fake seed scenario) s =
    ok (local_fake seed scenario)
kind_of cuda_available ProviderSpec.local (RuntimeSpec.cpu_probe tokens units) s =
    ok (cpu_probe (CpuProbe.config_of s tokens units))
kind_of cuda_available ProviderSpec.local (RuntimeSpec.llama_cpp target model tokens) s =
    if not (is_cpu target) && not cuda_available
    then unsupported
        "runtime llamaCpp target nvidiaCuda requires the supported x86_64-linux CUDA package"
    else ok (llama_cpp (LlamaCpp.config_of s target tokens))
kind_of cuda_available _ _ s =
    unsupported
      "executable combinations are provider localFake with runtime localFake, provider local with runtime cpuProbe, and provider local with runtime llamaCpp"

unfoldable pub execution_kind : Bool → ResolvedExperiment → Result ExecutionKind (String × String)
unfolding is_cpu
execution_kind cuda_available plan =
    kind_of cuda_available plan.experiment.spec.provider plan.experiment.spec.runtime
      plan.experiment.spec

-- the manifest that a run writes
unfoldable pub manifest_of :
    ResolvedExperiment → ExecutionOutput → ValidityResult → String → EvidenceManifest
manifest_of plan output validity run_id = record {
  format = evidence_format_v1;
  run_id = run_id;
  run_status = output.terminal_state;
  validity_status = validity.status;
  experiment_digest = plan.experiment_digest;
  resolved_plan_digest = plan.resolved_plan_digest;
  attempt_count = 1;
}
