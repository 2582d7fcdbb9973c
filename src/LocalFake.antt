-- ===== src/LocalFake.antt =====
-- crates/benchplane-core/src/local_fake.rs: the deterministic runtime. SHA-256 is a parameter.
pub mod Framing
pub mod Message
pub mod Ranges
pub mod Verifies
use benchplane.Base.{
  ℕ, zero, suc, ◌+◌, ◌-◌, ◌*◌, ◌%◌, String, Bool, true, false, Option, none, some, List, [], ◌∷◌,
  ◌++◌, min, to_be_bytes, from_be_bytes, as_bytes, take,
}
use benchplane.Schema.Experiment.{
  ResolvedExperiment, LocalFakeScenario, MeasurementSpec, success, runtime_failure, interrupted,
  insufficient_measurements, local_fake_generator_version,
}
use benchplane.Schema.Evidence.{
  RunState, FailureRecord, error_local_fake_runtime_failure, error_local_fake_interrupted,
}
use benchplane.Schema.Measurement.{MeasurementPhase, MeasurementRecord}
use benchplane.Execution.{ExecutionOutput}
use Framing.{frame}

abbrev pub phase_tag : MeasurementPhase → String
phase_tag MeasurementPhase.warmup = "warmup"
phase_tag MeasurementPhase.measured = "measured"

-- the seven hashed components
unfoldable pub components : String → ℕ → String → ℕ → ℕ → String → List (List ℕ)
components plan_digest seed phase repetition_index sample_index metric_tag =
    as_bytes local_fake_generator_version
    ∷ as_bytes plan_digest
    ∷ to_be_bytes 8 seed
    ∷ as_bytes phase
    ∷ to_be_bytes 4 repetition_index
    ∷ to_be_bytes 4 sample_index
    ∷ as_bytes metric_tag
    ∷ []

-- records per scenario: the measured repetitions that it emits
unfoldable pub measured_count : LocalFakeScenario → ℕ → ℕ
measured_count success repetitions = repetitions
measured_count insufficient_measurements repetitions = repetitions - 1
measured_count runtime_failure repetitions = min (repetitions - 1) 1
measured_count interrupted repetitions = min (repetitions - 1) 1

abbrev failure_record : String → String → FailureRecord
failure_record code message = record {
  phase = "running";
  code = code;
  message = message;
  retryable = false;
  attempt_number = 1;
}

-- the `match` that ends `execute`
unfoldable pub outcome : LocalFakeScenario → List MeasurementRecord → ExecutionOutput
outcome runtime_failure measurements = record {
  measurements = measurements;
  resources = none;
  nvidia_gpu = none;
  terminal_state = RunState.failed;
  failure =
      some (
        failure_record error_local_fake_runtime_failure "deterministic local-fake runtime failure");
}
outcome interrupted measurements = record {
  measurements = measurements;
  resources = none;
  nvidia_gpu = none;
  terminal_state = RunState.interrupted;
  failure =
      some (failure_record error_local_fake_interrupted "deterministic local-fake interruption");
}
outcome _ measurements = record {
  measurements = measurements;
  resources = none;
  nvidia_gpu = none;
  terminal_state = RunState.succeeded;
  failure = none;
}

-- `sha256` gives the digest of a byte string.
module _ (sha256 : List ℕ → List ℕ) where
  -- `minimum + value % span`, where `value` is the first eight bytes of the digest
  unfoldable pub derive_value : String → ℕ → String → ℕ → ℕ → String → ℕ → ℕ → ℕ
  unfolding components
  derive_value plan_digest seed phase repetition_index sample_index metric_tag minimum span =
      let digest =
        sha256
          (frame (components plan_digest seed phase repetition_index sample_index metric_tag)) in
      minimum + from_be_bytes 0 (take 8 digest) % span

  unfoldable pub measurement : ResolvedExperiment → ℕ → MeasurementPhase → ℕ → ℕ → MeasurementRecord
  measurement plan seed phase repetition_index sample_index =
      let metric =
        derive_value plan.resolved_plan_digest seed (phase_tag phase) repetition_index
          sample_index in
      record {
        generator = local_fake_generator_version;
        attempt_number = 1;
        phase = phase;
        repetition_index = repetition_index;
        sample_index = sample_index;
        latency_micros = metric "latencyMicros" 10000 40001;
        time_to_first_token_micros = metric "timeToFirstTokenMicros" 1000 9001;
        throughput_milli_requests_per_second =
            metric "throughputMilliRequestsPerSecond" 10000 90001;
        successful_requests = plan.experiment.spec.workload.requests;
        failed_requests = 0;
        request_observations = [];
      }

  -- `for index in first..first + count { push }`
  unfoldable pub emit : ResolvedExperiment → ℕ → MeasurementPhase → ℕ → ℕ → List MeasurementRecord
  emit plan seed phase first zero = []
  emit plan seed phase first (suc count) =
      measurement plan seed phase first 1 ∷ emit plan seed phase (first + 1) count

  unfoldable pub execute : ResolvedExperiment → ℕ → LocalFakeScenario → ExecutionOutput
  unfolding outcome measured_count
  execute plan seed scenario =
      let spec = plan.experiment.spec.measurement in
      outcome scenario (
        emit plan seed MeasurementPhase.warmup 1 spec.warmup_runs
        ++ emit plan seed MeasurementPhase.measured 1 (measured_count scenario spec.repetitions))
