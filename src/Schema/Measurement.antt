-- ===== src/Schema/Measurement.antt =====
-- crates/benchplane-schema/src/evidence.rs: measurements, validity, summaries, results and the
-- records of a comparison.
use benchplane.Base.{ℕ, ℤ, String, Bool, true, false, List, Option}
use benchplane.Schema.Experiment.{LlamaCppTarget}
use benchplane.Schema.Evidence.{
  RunState, ValidityStatus, FailureRecord, ProcessResources, ResourceScope, DeviceClass,
}

pub data MeasurementPhase : Type 0 where
  warmup measured : MeasurementPhase

-- the derived `PartialEq`
unfoldable pub phase_eq : MeasurementPhase → MeasurementPhase → Bool
phase_eq warmup warmup = true
phase_eq measured measured = true
phase_eq warmup measured = false
phase_eq measured warmup = false

pub record RequestObservation : Type 0 where
  pub request_index : ℕ  -- u32
  pub latency_micros : ℕ  -- u64
  pub time_to_first_token_micros : ℕ  -- u64

pub record MeasurementRecord : Type 0 where
  pub generator : String
  pub attempt_number : ℕ  -- u32
  pub phase : MeasurementPhase
  pub repetition_index : ℕ  -- u32
  pub sample_index : ℕ  -- u32
  pub latency_micros : ℕ  -- u64
  pub time_to_first_token_micros : ℕ  -- u64
  pub throughput_milli_requests_per_second : ℕ  -- u64
  pub successful_requests : ℕ  -- u32
  pub failed_requests : ℕ  -- u32
  pub request_observations : List RequestObservation

pub record ValidityReason : Type 0 where
  pub code : String
  pub message : String

pub record ValidityResult : Type 0 where
  pub run_id : String
  pub status : ValidityStatus
  pub required_samples : ℕ  -- u32
  pub observed_samples : ℕ  -- u32
  pub reasons : List ValidityReason

pub record LatencySummary : Type 0 where
  pub mean_micros : ℕ  -- u64
  pub p50_micros : ℕ  -- u64
  pub p95_micros : ℕ  -- u64

pub record RunSummary : Type 0 where
  pub run_id : String
  pub run_status : RunState
  pub attempt_count : ℕ  -- u32
  pub sample_count : ℕ  -- u32
  pub validity_status : ValidityStatus
  pub latency : Option LatencySummary
  pub mean_throughput_milli_requests_per_second : Option ℕ  -- u64
  pub experiment_digest : String
  pub resolved_plan_digest : String

pub record EvidenceManifest : Type 0 where
  pub format : String
  pub run_id : String
  pub run_status : RunState
  pub validity_status : ValidityStatus
  pub experiment_digest : String
  pub resolved_plan_digest : String
  pub attempt_count : ℕ  -- u32

pub record RunResult : Type 0 where
  pub run_id : String
  pub run_state : RunState
  pub validity_status : ValidityStatus
  pub attempt_count : ℕ  -- u32
  pub sample_count : ℕ  -- u32
  pub latency : Option LatencySummary
  pub mean_throughput_milli_requests_per_second : Option ℕ  -- u64
  pub resources : Option ProcessResources
  pub bundle_path : String
  pub experiment_digest : String
  pub resolved_plan_digest : String
  pub evidence_digest : String
  pub failure : Option FailureRecord

pub record BundleIdentity : Type 0 where
  pub bundle_path : String
  pub run_id : String
  pub experiment_digest : String
  pub resolved_plan_digest : String

pub record LlamaMeasurementContract : Type 0 where
  pub provider : String
  pub runtime : String
  pub target : LlamaCppTarget
  pub generator : String
  pub model : String
  pub model_sha256 : String
  pub engine_name : String
  pub engine_version : String
  pub backend : String
  pub device_class : DeviceClass
  pub workload_profile : String
  pub output_tokens : ℕ  -- u32
  pub requests_per_repetition : ℕ  -- u32
  pub concurrency : ℕ  -- u32
  pub warmup_runs : ℕ  -- u32
  pub measured_repetitions : ℕ  -- u32

pub data EnvironmentRelationship : Type 0 where
  same different unknown : EnvironmentRelationship

pub record EnvironmentComparison : Type 0 where
  pub field : String
  pub baseline : Option String
  pub candidate : Option String
  pub relationship : EnvironmentRelationship

pub record IntegerDelta : Type 0 where
  pub absolute_delta : ℤ  -- i128
  pub percentage_delta_milli_percent : Option ℤ  -- i128

pub record MetricComparison : Type 0 where
  pub baseline : ℕ  -- u64
  pub candidate : ℕ  -- u64
  pub delta : IntegerDelta

pub record DistributionComparison : Type 0 where
  pub baseline : LatencySummary
  pub candidate : LatencySummary
  pub mean : MetricComparison
  pub p50 : MetricComparison
  pub p95 : MetricComparison

pub record RequestScopeComparison : Type 0 where
  pub unit : String
  pub baseline_count : ℕ  -- u64
  pub candidate_count : ℕ  -- u64
  pub latency_micros : DistributionComparison
  pub time_to_first_token_micros : DistributionComparison

pub record RepetitionScopeComparison : Type 0 where
  pub unit : String
  pub baseline_count : ℕ  -- u64
  pub candidate_count : ℕ  -- u64
  pub aggregate_latency_micros : DistributionComparison
  pub aggregate_time_to_first_token_micros : DistributionComparison
  pub mean_throughput_milli_requests_per_second : MetricComparison

pub record AttemptResourceValues : Type 0 where
  pub scope : ResourceScope
  pub cpu_time_micros : ℕ  -- u64
  pub peak_rss_bytes : ℕ  -- u64

pub record AttemptResourceComparison : Type 0 where
  pub unit : String
  pub baseline : Option AttemptResourceValues
  pub candidate : Option AttemptResourceValues
  pub cpu_time_micros : Option MetricComparison
  pub peak_rss_bytes : Option MetricComparison

pub record EvidenceComparison : Type 0 where
  pub format : String
  pub baseline : BundleIdentity
  pub candidate : BundleIdentity
  pub compatible : Bool
  pub incompatibilities : List String
  pub measurement_contract : Option LlamaMeasurementContract
  pub environment : List EnvironmentComparison
  pub requests : Option RequestScopeComparison
  pub repetitions : Option RepetitionScopeComparison
  pub attempt_resources : Option AttemptResourceComparison
  pub interpretation : String
