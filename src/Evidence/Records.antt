-- ===== src/Evidence/Records.antt =====
-- The checks of one measurement record in crates/benchplane-core/src/evidence.rs:
-- `expected_measurement_counts`, `validate_measurement_record` and
-- `validate_llama_v2_aggregate_consistency`.
pub mod Fields
use benchplane.Base.{
  ℕ, ◌+◌, ◌-◌, ◌*◌, ◌%◌, ◌≡◌, String, Bool, true, false, not, ◌&&◌, ◌||◌, Option, none, some, List,
  [], ◌∷◌, map, length, ltb, ◌==◌, str_eq, if◌then◌else◌, is_some_and, in_range, min, u32_mod,
  Result, ok, err, ok_or, fail_if, ◌>>=◌, ◌>>◌, format, decimal,
}
use benchplane.Schema.Experiment.{
  ResolvedExperiment, ProviderSpec, RuntimeSpec, LocalFakeScenario, LlamaCppTarget, MeasurementSpec,
  is_cpu, local_fake_generator_version, cpu_probe_generator_version, llama_cpp_generator_version_v1,
  llama_cpp_generator_version,
}
use benchplane.Schema.Evidence.{RunState, run_state_eq}
use benchplane.Schema.Measurement.{
  MeasurementPhase, MeasurementRecord, RequestObservation, phase_eq,
}
use benchplane.Execution.{is_empty}
use benchplane.Evidence.Error.{EvidenceError}
use benchplane.Evidence.Means.{rounded_request_mean_bounds}

abbrev pub Checked : Type 0
Checked = Result (Unit {0}) EvidenceError

-- a test on the run status that a `localFake` scenario leads to, and the measured count
unfoldable pub local_fake_counts : LocalFakeScenario → ℕ → RunState × ℕ
local_fake_counts LocalFakeScenario.success repetitions = (RunState.succeeded, repetitions)
local_fake_counts LocalFakeScenario.insufficient_measurements repetitions =
    (RunState.succeeded, repetitions - 1)
local_fake_counts LocalFakeScenario.runtime_failure repetitions =
    (RunState.failed, min (repetitions - 1) 1)
local_fake_counts LocalFakeScenario.interrupted repetitions =
    (RunState.interrupted, min (repetitions - 1) 1)

abbrev helper_counts : MeasurementSpec → RunState → Result (ℕ × ℕ) EvidenceError
helper_counts m RunState.succeeded = ok (m.warmup_runs, m.repetitions)
helper_counts m RunState.failed = ok (0, 0)
helper_counts m _ =
    err (EvidenceError.invalid_measurements "helper-backed run has an unsupported terminal status")

abbrev counts_of :
    ProviderSpec → RuntimeSpec → MeasurementSpec → RunState → Result (ℕ × ℕ) EvidenceError
counts_of ProviderSpec.local_fake (RuntimeSpec.local_fake seed scenario) m status =
    let (expected_status, measured) = local_fake_counts scenario m.repetitions in
    if not (run_state_eq status expected_status)
    then err (EvidenceError.invalid_measurements "localFake scenario does not match run status")
    else ok (m.warmup_runs, measured)
counts_of ProviderSpec.local (RuntimeSpec.cpu_probe tokens units) m status = helper_counts m status
counts_of ProviderSpec.local (RuntimeSpec.llama_cpp target model tokens) m status =
    helper_counts m status
counts_of _ _ m status =
    err
      (EvidenceError.invalid_measurements "resolved provider/runtime combination is not executable")

-- warmup and measured records that a bundle must hold
unfoldable pub expected_measurement_counts :
    ResolvedExperiment → RunState → Result (ℕ × ℕ) EvidenceError
unfolding local_fake_counts
expected_measurement_counts plan status =
    counts_of plan.experiment.spec.provider plan.experiment.spec.runtime
      plan.experiment.spec.measurement status

-- the phase and the index of the record at a position
unfoldable pub expected_place : ℕ → ℕ → MeasurementPhase × ℕ
expected_place position warmup_count =
    if ltb position warmup_count
    then (MeasurementPhase.warmup, position + 1)
    else (MeasurementPhase.measured, position - warmup_count + 1)

-- the aggregate fields of a record, as the verifier rejects them
unfoldable pub aggregate_mismatch :
    MeasurementRecord → MeasurementPhase → ℕ → ℕ → Option String → Bool
unfolding phase_eq
aggregate_mismatch r phase repetition_index requests prior_generator =
    not (r.attempt_number == 1)
    || not (phase_eq r.phase phase)
    || not (r.repetition_index == repetition_index)
    || not (r.sample_index == 1)
    || r.latency_micros == 0
    || r.time_to_first_token_micros == 0
    || ltb r.latency_micros r.time_to_first_token_micros
    || r.throughput_milli_requests_per_second == 0
    || not (r.successful_requests == requests)
    || not (r.failed_requests == 0)
    || is_some_and prior_generator (λ g. not (str_eq g r.generator))

-- The loop over the observations, from an index on. The indices of a checked list are at most the
-- u32 `requests`, so `index as u32 + 1` does not wrap.
unfoldable pub observations_invalid : ℕ → List RequestObservation → Bool
observations_invalid index [] = false
observations_invalid index (o ∷ rest) =
    not (o.request_index == index + 1)
    || o.latency_micros == 0
    || o.time_to_first_token_micros == 0
    || ltb o.latency_micros o.time_to_first_token_micros
    || observations_invalid (index + 1) rest

abbrev pub outside : ℕ × ℕ → ℕ → Bool
outside (lo, hi) x = not (in_range lo hi x)

unfoldable pub validate_llama_v2_aggregate_consistency : MeasurementRecord → Checked
validate_llama_v2_aggregate_consistency r = do
  latency_bounds ←
      ok_or (rounded_request_mean_bounds (map (λ o. o.latency_micros) r.request_observations)) (
        EvidenceError.invalid_measurements
          "llamaCpp v2 latency aggregate bounds are not representable")
  ttft_bounds ←
      ok_or
        (rounded_request_mean_bounds
          (map (λ o. o.time_to_first_token_micros) r.request_observations))
        (EvidenceError.invalid_measurements
          "llamaCpp v2 TTFT aggregate bounds are not representable")
  fail_if
      (outside latency_bounds r.latency_micros || outside ttft_bounds r.time_to_first_token_micros)
      (EvidenceError.invalid_measurements
        "llamaCpp v2 aggregate latency or TTFT contradicts its request observations")

-- the arm of `LLAMA_CPP_GENERATOR_VERSION`
unfoldable pub validate_llama_v2 : MeasurementRecord → ℕ → Checked
validate_llama_v2 r requests = do
  fail_if (not (length r.request_observations == requests)) (
      EvidenceError.invalid_measurements
        "llamaCpp v2 request-observation cardinality does not match workload.requests")
  fail_if (observations_invalid 0 r.request_observations) (
      EvidenceError.invalid_measurements
        "llamaCpp v2 request observation is out of order or invalid")
  validate_llama_v2_aggregate_consistency r

-- the `match` on the runtime
unfoldable pub validate_runtime_contract : RuntimeSpec → MeasurementRecord → ℕ → Checked
unfolding is_cpu
validate_runtime_contract (RuntimeSpec.local_fake seed scenario) r requests =
    fail_if
      (not (str_eq r.generator local_fake_generator_version)
        || not (is_empty r.request_observations))
      (EvidenceError.invalid_measurements "localFake measurement contract is not supported")
validate_runtime_contract (RuntimeSpec.cpu_probe tokens units) r requests =
    fail_if
      (not (str_eq r.generator cpu_probe_generator_version)
        || not (is_empty r.request_observations))
      (EvidenceError.invalid_measurements "cpuProbe measurement contract is not supported")
validate_runtime_contract (RuntimeSpec.llama_cpp target model tokens) r requests =
    if str_eq r.generator llama_cpp_generator_version_v1
      && is_cpu target
      && is_empty r.request_observations
    then ok tt
    else if str_eq r.generator llama_cpp_generator_version
    then validate_llama_v2 r requests
    else err (EvidenceError.invalid_measurements "llamaCpp measurement generator is not supported")
validate_runtime_contract (RuntimeSpec.vllm model revision arguments) r requests =
    err (EvidenceError.invalid_measurements "vLLM execution evidence is not supported")

unfoldable pub validate_measurement_record :
    MeasurementRecord → ℕ → ℕ → ResolvedExperiment → Option String → Checked
unfolding expected_place
validate_measurement_record r position warmup_count plan prior_generator =
    let (phase, repetition_index) = expected_place position warmup_count in
    let requests = plan.experiment.spec.workload.requests in
    do
      fail_if (aggregate_mismatch r phase repetition_index requests prior_generator) (
          EvidenceError.invalid_measurements (
            format (
              "aggregate record "
              ∷ decimal (position + 1)
              ∷ " does not match the resolved execution"
              ∷ [])))
      validate_runtime_contract plan.experiment.spec.runtime r requests
