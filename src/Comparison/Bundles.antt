-- ===== src/Comparison/Bundles.antt =====
-- `compare_evidence_bundles` and `compare_repetitions` of
-- crates/benchplane-core/src/comparison.rs. A panic is `none`.
use benchplane.Base.{
  ℕ, String, Option, none, some, List, map, length, str_eq, if◌then◌else◌, Result, ok, err, fail_if,
  ◌>>=◌, ◌>>◌, and_then,
}
use mathlib.Core.Option
use benchplane.Schema.Evidence.{evidence_comparison_format_v1}
use benchplane.Schema.Measurement.{
  MeasurementRecord, RepetitionScopeComparison, RequestScopeComparison, AttemptResourceComparison,
  BundleIdentity, LlamaMeasurementContract, EvidenceComparison,
}
use benchplane.Execution.{measured_records, is_empty}
use benchplane.Execution.Stats.{mean_u64}
use benchplane.Evidence.Error.{EvidenceError}
use benchplane.Evidence.Consistency.{VerifiedEvidenceBundle}
use benchplane.Comparison.{
  compare_metric, compare_distribution, compare_requests, compare_resources,
}
use benchplane.Comparison.Environment.{compare_environment}
use benchplane.Comparison.Contract.{
  ComparisonError, invalid_evidence, same_run, eligible_contract, contract_differences,
}

abbrev pub descriptive_note : String
descriptive_note =
    "Descriptive only: requests and repetitions within each run share one initialized helper/model lifetime; no significance, independence, causality, or cross-host equivalence is claimed."

unfoldable pub repetition_values : List MeasurementRecord → List ℕ × List ℕ × List ℕ
repetition_values records =
    let measured = measured_records records in
    (
      map (λ r. r.latency_micros) measured,
      map (λ r. r.time_to_first_token_micros) measured,
      map (λ r. r.throughput_milli_requests_per_second) measured,
    )

unfoldable pub compare_repetitions :
    List MeasurementRecord → List MeasurementRecord → Option RepetitionScopeComparison
unfolding repetition_values
compare_repetitions baseline candidate =
    let (latency, ttft, throughput) = repetition_values baseline in
    let (latency', ttft', throughput') = repetition_values candidate in
    and_then (compare_distribution latency latency') λ l.
      and_then (compare_distribution ttft ttft') λ t. and_then (mean_u64 throughput) λ mean.
        and_then (mean_u64 throughput') λ mean'. some (record {
          unit = "measuredRepetitionAggregate";
          baseline_count = length latency;
          candidate_count = length latency';
          aggregate_latency_micros = l;
          aggregate_time_to_first_token_micros = t;
          mean_throughput_milli_requests_per_second = compare_metric mean mean';
        })

unfoldable pub bundle_identity : VerifiedEvidenceBundle → BundleIdentity
bundle_identity bundle = record {
  bundle_path = bundle.root;
  run_id = bundle.manifest.run_id;
  experiment_digest = bundle.manifest.experiment_digest;
  resolved_plan_digest = bundle.manifest.resolved_plan_digest;
}

-- `map_err` on the verification's error
abbrev as_evidence :
    String
    → Result VerifiedEvidenceBundle EvidenceError
    → Result VerifiedEvidenceBundle ComparisonError
as_evidence role (ok bundle) = ok bundle
as_evidence role (err source) = err (invalid_evidence role source)

-- the bundles that are compared, and their contracts
unfoldable pub eligible_bundles :
    Result VerifiedEvidenceBundle EvidenceError
    → Result VerifiedEvidenceBundle EvidenceError
    → Result
        ((VerifiedEvidenceBundle × LlamaMeasurementContract)
          × (VerifiedEvidenceBundle × LlamaMeasurementContract))
        ComparisonError
eligible_bundles baseline candidate = do
  b ← as_evidence "baseline" baseline
  c ← as_evidence "candidate" candidate
  fail_if (str_eq b.manifest.run_id c.manifest.run_id) same_run
  b_contract ← eligible_contract "baseline" b
  c_contract ← eligible_contract "candidate" c
  ok ((b, b_contract), (c, c_contract))

-- the scopes that are compared where the contracts agree
abbrev compatible_scopes :
    VerifiedEvidenceBundle
    → VerifiedEvidenceBundle
    → Option (
        Option RequestScopeComparison
        × Option RepetitionScopeComparison
        × Option AttemptResourceComparison)
compatible_scopes b c = and_then (compare_requests b.measurements c.measurements) λ requests.
    and_then (compare_repetitions b.measurements c.measurements) λ repetitions.
      some (some requests, some repetitions, compare_resources b.resources c.resources)

unfoldable pub compare_eligible :
    VerifiedEvidenceBundle × LlamaMeasurementContract
    → VerifiedEvidenceBundle × LlamaMeasurementContract
    → Option EvidenceComparison
unfolding compare_repetitions bundle_identity
compare_eligible (b, b_contract) (c, c_contract) =
    let differences = contract_differences b_contract c_contract in
    let compatible = is_empty differences in
    and_then b.provenance λ b_provenance. and_then c.provenance λ c_provenance.
      and_then (if compatible then compatible_scopes b c else some (none, none, none)) λ scopes.
        some (record {
          format = evidence_comparison_format_v1;
          baseline = bundle_identity b;
          candidate = bundle_identity c;
          compatible = compatible;
          incompatibilities = differences;
          measurement_contract = if compatible then some b_contract else none;
          environment = compare_environment b_provenance c_provenance;
          requests = scopes.0;
          repetitions = scopes.1;
          attempt_resources = scopes.2;
          interpretation = descriptive_note;
        })

-- what the verification of the two bundles has given is an argument
unfoldable pub compare_evidence_bundles :
    Result VerifiedEvidenceBundle EvidenceError
    → Result VerifiedEvidenceBundle EvidenceError
    → Option (Result EvidenceComparison ComparisonError)
unfolding eligible_bundles compare_eligible
compare_evidence_bundles baseline candidate = elim (eligible_bundles baseline candidate) [
  | err e ↦ some (err e)
  | ok (b, c) ↦ Option.map (λ r. ok r) (compare_eligible b c)
]
