-- ===== src/CpuProbe.antt =====
-- crates/benchplane-core/src/cpu_probe.rs: the adapter of the CPU probe helper, and the
-- configuration that `execution_kind` of crates/benchplane-core/src/run.rs gives it.
pub mod Agrees
pub mod Bounds
pub mod Verifies
pub mod Execute
use benchplane.Base.{
  ℕ, ◌+◌, ◌-◌, ◌%◌, String, Bool, true, false, ◌&&◌, Option, none, some, List, [], ltb, leb, ◌==◌,
  str_eq, if◌then◌else◌, keep_if, and_then, checked_add_u32, checked_mul_usize, u32_mod, Result, ok,
  err, ok_or, ◌>>=◌, format, decimal, ◌∷◌,
}
use benchplane.Schema.Experiment.{
  ExperimentSpec, cpu_probe_generator_version, max_cpu_probe_records,
}
use benchplane.Schema.Evidence.{FailureRecord, RunState, error_cpu_probe_output_invalid}
use benchplane.Schema.Measurement.{MeasurementPhase, MeasurementRecord, phase_eq}
use benchplane.Execution.{ExecutionOutput}
use benchplane.ChildSupervisor.Protocol.{ChildExecution, ChildProtocol, take_chars}

abbrev pub max_stdout_bytes : ℕ
max_stdout_bytes = 1048576

abbrev pub max_serialized_record_bytes : ℕ
max_serialized_record_bytes = 512

pub record CpuProbeConfig : Type 0 where
  pub requests : ℕ  -- u32
  pub warmup_runs : ℕ  -- u32
  pub repetitions : ℕ  -- u32
  pub output_tokens : ℕ  -- u32
  pub work_units_per_token : ℕ  -- u32
  pub maximum_runtime_seconds : ℕ  -- u64

-- the arm of `execution_kind`
unfoldable pub config_of : ExperimentSpec → ℕ → ℕ → CpuProbeConfig
config_of s output_tokens work_units_per_token = record {
  requests = s.workload.requests;
  warmup_runs = s.measurement.warmup_runs;
  repetitions = s.measurement.repetitions;
  output_tokens = output_tokens;
  work_units_per_token = work_units_per_token;
  maximum_runtime_seconds = s.lifecycle.maximum_runtime_seconds;
}

unfoldable pub protocol_failure : String → FailureRecord
unfolding take_chars
protocol_failure message = record {
  phase = "running";
  code = error_cpu_probe_output_invalid;
  message = take_chars 1024 message;
  retryable = false;
  attempt_number = 1;
}

-- The conversion of the `u32` to `usize` cannot fail.
unfoldable pub expected_record_count : CpuProbeConfig → Result ℕ FailureRecord
expected_record_count config = do
  count ←
      ok_or
        (keep_if (checked_add_u32 config.warmup_runs config.repetitions)
          (λ c. leb c max_cpu_probe_records))
        (protocol_failure "CPU probe requested excessive measurement records")
  bytes ←
      ok_or
        (keep_if (checked_mul_usize count max_serialized_record_bytes)
          (λ b. leb b max_stdout_bytes))
        (protocol_failure "CPU probe requested output exceeds its transport bound")
  ok count

-- the phase and the index of a position; the position is a `usize`
unfoldable pub expected_place : ℕ → ℕ → MeasurementPhase × ℕ
expected_place position warmup_runs =
    if ltb position warmup_runs
    then (MeasurementPhase.warmup, position % u32_mod + 1)
    else (MeasurementPhase.measured, position % u32_mod - warmup_runs + 1)

unfoldable pub is_valid : MeasurementRecord → MeasurementPhase → ℕ → ℕ → Bool
unfolding phase_eq
is_valid r phase repetition_index requests =
    str_eq r.generator cpu_probe_generator_version
    && r.attempt_number == 1
    && phase_eq r.phase phase
    && r.repetition_index == repetition_index
    && r.sample_index == 1
    && ltb 0 r.latency_micros
    && ltb 0 r.time_to_first_token_micros
    && leb r.time_to_first_token_micros r.latency_micros
    && ltb 0 r.throughput_milli_requests_per_second
    && r.successful_requests == requests
    && r.failed_requests == 0

unfoldable pub validate_record : MeasurementRecord → ℕ → CpuProbeConfig → Result (Unit {0}) String
unfolding expected_place is_valid
validate_record r position config =
    let (phase, repetition_index) = expected_place position config.warmup_runs in
    if is_valid r phase repetition_index config.requests
    then ok tt
    else err (
        format (
          "CPU probe record "
          ∷ decimal (position + 1)
          ∷ " does not match the requested execution"
          ∷ []))

-- the protocol that the supervisor gets
unfoldable pub protocol_of : CpuProbeConfig → ℕ → ChildProtocol
protocol_of config expected_count = record {
  runtime_name = "CPU probe";
  expected_metadata_records = 0;
  expected_records = expected_count;
  max_record_bytes = max_serialized_record_bytes;
  max_stdout_bytes = max_stdout_bytes;
  maximum_runtime_seconds = config.maximum_runtime_seconds;
  spawn_failure_code = "cpuProbe.spawnFailed";
  exit_failure_code = "cpuProbe.exitFailed";
  output_failure_code = error_cpu_probe_output_invalid;
  deadline_failure_code = "cpuProbe.deadlineExceeded";
  resource_failure_code = "cpuProbe.resourceAccountingFailed";
  special_exit_codes = [];
}

abbrev pub terminal_state_of : Option FailureRecord → RunState
terminal_state_of none = RunState.succeeded
terminal_state_of (some f) = RunState.failed

unfoldable pub into_execution_output : ChildExecution → ExecutionOutput
into_execution_output result = record {
  measurements = result.measurements;
  resources = result.resources;
  nvidia_gpu = none;
  terminal_state = terminal_state_of result.failure;
  failure = result.failure;
}
