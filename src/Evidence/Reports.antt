-- ===== src/Evidence/Reports.antt =====
-- The part of `validate_record_consistency` of crates/benchplane-core/src/evidence.rs that checks
-- the validity result and the run summary of a bundle.
pub mod Consistent
use benchplane.Base.{
  and_then, ℕ, ◌≡◌, refl, String, Bool, true, false, not, ◌&&◌, ◌||◌, Option, none, some, List, [],
  leb, ◌==◌, str_eq, if◌then◌else◌, fail_if, ok, err, select, map, length,
}
use benchplane.Schema.Experiment.{ResolvedExperiment}
use benchplane.Schema.Evidence.{RunState, ValidityStatus, run_state_eq}
use benchplane.Schema.Measurement.{
  EvidenceManifest, ValidityResult, RunSummary, LatencySummary, MeasurementRecord,
}
use benchplane.Execution.{is_measured, is_indeterminate, is_empty, measured_records}
use benchplane.Execution.Stats.{describe_micros, mean_u64}
use benchplane.Evidence.Error.{EvidenceError}
use benchplane.Evidence.Records.{Checked}
use benchplane.Evidence.Measurements.{MeasurementValidation}

-- the derived `PartialEq`s
unfoldable pub validity_eq : ValidityStatus → ValidityStatus → Bool
validity_eq ValidityStatus.valid ValidityStatus.valid = true
validity_eq ValidityStatus.invalid ValidityStatus.invalid = true
validity_eq ValidityStatus.indeterminate ValidityStatus.indeterminate = true
validity_eq _ _ = false

unfoldable pub latency_eq : Option LatencySummary → Option LatencySummary → Bool
latency_eq none none = true
latency_eq (some a) (some b) =
    a.mean_micros == b.mean_micros && a.p50_micros == b.p50_micros && a.p95_micros == b.p95_micros
latency_eq _ _ = false

unfoldable pub count_eq : Option ℕ → Option ℕ → Bool
count_eq none none = true
count_eq (some a) (some b) = a == b
count_eq _ _ = false

-- the `match` on the run status; `none` is its `unreachable!`
unfoldable pub expected_validity : RunState → ℕ → ℕ → Option ValidityStatus
expected_validity RunState.succeeded measured repetitions =
    if leb repetitions measured then some ValidityStatus.valid else some ValidityStatus.invalid
expected_validity RunState.failed measured repetitions = some ValidityStatus.indeterminate
expected_validity RunState.interrupted measured repetitions = some ValidityStatus.indeterminate
expected_validity _ measured repetitions = none

-- The check of validity.json; `none` is a panic.
unfoldable pub check_validity :
    ResolvedExperiment → EvidenceManifest → MeasurementValidation → ValidityResult → Option Checked
check_validity plan manifest m validity =
    let repetitions = plan.experiment.spec.measurement.repetitions in
    elim (expected_validity manifest.run_status m.measured_records repetitions) [
      | none ↦ none
      | some expected ↦ some (
          fail_if
            (not (str_eq validity.run_id manifest.run_id)
              || not (validity_eq validity.status manifest.validity_status)
              || not (validity_eq validity.status expected)
              || not (validity.required_samples == repetitions)
              || not (validity.observed_samples == m.measured_records))
            (EvidenceError.inconsistent_record "validity.json"))
    ]

-- the statistics that the verifier computes again; `none` is a panic
unfoldable pub expected_statistics :
    List MeasurementRecord → ValidityStatus → Option (Option LatencySummary × Option ℕ)
expected_statistics measured status =
    if is_empty measured || validity_eq status ValidityStatus.indeterminate
    then some (none, none)
    else and_then (describe_micros (map (λ r. r.latency_micros) measured)) λ latency.
      some (latency, mean_u64 (map (λ r. r.throughput_milli_requests_per_second) measured))

-- the check of summary.json against the statistics
abbrev pub compare_summary :
    EvidenceManifest
    → MeasurementValidation
    → RunSummary
    → Option LatencySummary × Option ℕ
    → Checked
compare_summary manifest m summary (latency, throughput) =
    fail_if
      (not (str_eq summary.run_id manifest.run_id)
        || not (run_state_eq summary.run_status manifest.run_status)
        || not (validity_eq summary.validity_status manifest.validity_status)
        || not (summary.attempt_count == 1)
        || not (summary.sample_count == m.measured_records)
        || not (str_eq summary.experiment_digest manifest.experiment_digest)
        || not (str_eq summary.resolved_plan_digest manifest.resolved_plan_digest)
        || not (latency_eq summary.latency latency)
        || not (count_eq summary.mean_throughput_milli_requests_per_second throughput))
      (EvidenceError.inconsistent_record "summary.json")

-- The check of summary.json; `none` is a panic.
unfoldable pub check_summary :
    EvidenceManifest → MeasurementValidation → RunSummary → Option Checked
check_summary manifest m summary =
    and_then (expected_statistics (measured_records m.records) manifest.validity_status)
      λ found. some (compare_summary manifest m summary found)
