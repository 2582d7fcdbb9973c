-- ===== src/Execution.antt =====
-- crates/benchplane-core/src/execution.rs: what an execution returns, its validity, and the
-- descriptive statistics of a run.
pub mod Stats
pub mod Sort
pub mod Ranks
pub mod Mean
use benchplane.Base.{
  and_then, ℕ, ◌%◌, String, Bool, true, false, not, ◌||◌, Option, none, some, List, [], ◌∷◌, map,
  length, select, leb, if◌then◌else◌, u32_mod, decimal, format,
}
use benchplane.Schema.Experiment.{ResolvedExperiment}
use benchplane.Schema.Evidence.{
  RunState, ValidityStatus, FailureRecord, ProcessResources, NvidiaGpuProvenance,
}
use benchplane.Schema.Measurement.{
  MeasurementPhase, MeasurementRecord, ValidityReason, ValidityResult, LatencySummary, RunSummary,
}
use Stats.{describe_micros, mean_u64}

pub record ExecutionOutput : Type 0 where
  pub measurements : List MeasurementRecord
  pub resources : Option ProcessResources
  pub nvidia_gpu : Option NvidiaGpuProvenance
  pub terminal_state : RunState
  pub failure : Option FailureRecord

abbrev pub is_measured : MeasurementPhase → Bool
is_measured MeasurementPhase.warmup = false
is_measured MeasurementPhase.measured = true

unfoldable pub measured_records : List MeasurementRecord → List MeasurementRecord
measured_records records = select (λ r. is_measured r.phase) records

-- `records.count() as u32`
unfoldable pub observed_samples : List MeasurementRecord → ℕ
unfolding measured_records
observed_samples records = length (measured_records records) % u32_mod

abbrev insufficient : ℕ → ℕ → ValidityReason
insufficient required observed = record {
  code = "insufficientSamples";
  message =
      format (
        "required " ∷ decimal required ∷ " measured samples but observed " ∷ decimal observed ∷ []);
}

-- the `match` on the terminal state; `none` is its `unreachable!`
unfoldable pub validity_of : RunState → ℕ → ℕ → Option (ValidityStatus × List ValidityReason)
validity_of RunState.succeeded required observed =
    if leb required observed
    then some (ValidityStatus.valid, [])
    else some (ValidityStatus.invalid, insufficient required observed ∷ [])
validity_of RunState.failed required observed = some (
  ValidityStatus.indeterminate,
  record {
    code = "runtimeFailure";
    message = "measurement validity is indeterminate after runtime failure";
  }
      ∷ [],
)
validity_of RunState.interrupted required observed = some (
  ValidityStatus.indeterminate,
  record {
    code = "interrupted";
    message = "measurement validity is indeterminate after interruption";
  }
      ∷ [],
)
validity_of _ required observed = none

-- `none` is a panic
unfoldable pub evaluate_validity :
    ResolvedExperiment → ExecutionOutput → String → Option ValidityResult
evaluate_validity plan output run_id =
    let observed = observed_samples output.measurements in
    let required = plan.experiment.spec.measurement.repetitions in
    elim (validity_of output.terminal_state required observed) [
      | none ↦ none
      | some (status, reasons) ↦ some (record {
        run_id = run_id;
        status = status;
        required_samples = required;
        observed_samples = observed;
        reasons = reasons;
      })
    ]

abbrev pub is_indeterminate : ValidityStatus → Bool
is_indeterminate ValidityStatus.indeterminate = true
is_indeterminate _ = false

abbrev pub is_empty {ℓ} : {A : Type ℓ} → List A → Bool
is_empty [] = true
is_empty (x ∷ xs) = false

-- The latency and throughput statistics of the measured records; `none` is a panic.
unfoldable pub statistics :
    List MeasurementRecord → ValidityStatus → Option (Option LatencySummary × Option ℕ)
statistics measured status =
    if is_empty measured || is_indeterminate status
    then some (none, none)
    else and_then (describe_micros (map (λ r. r.latency_micros) measured)) λ latency.
      some (latency, mean_u64 (map (λ r. r.throughput_milli_requests_per_second) measured))

-- the summary with its statistics
abbrev pub summary_of :
    ResolvedExperiment
    → ExecutionOutput
    → ValidityResult
    → String
    → Option LatencySummary × Option ℕ
    → RunSummary
summary_of plan output validity run_id (latency, mean_throughput) = record {
  run_id = run_id;
  run_status = output.terminal_state;
  attempt_count = 1;
  sample_count = length (measured_records output.measurements) % u32_mod;
  validity_status = validity.status;
  latency = latency;
  mean_throughput_milli_requests_per_second = mean_throughput;
  experiment_digest = plan.experiment_digest;
  resolved_plan_digest = plan.resolved_plan_digest;
}

-- `none` is a panic
unfoldable pub summarize :
    ResolvedExperiment → ExecutionOutput → ValidityResult → String → Option RunSummary
unfolding measured_records statistics
summarize plan output validity run_id =
    and_then (statistics (measured_records output.measurements) validity.status)
      λ found. some (summary_of plan output validity run_id found)
