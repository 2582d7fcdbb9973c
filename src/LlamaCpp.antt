-- ===== src/LlamaCpp.antt =====
-- crates/benchplane-core/src/llama_cpp.rs: the adapter of the llama.cpp helper, and the
-- configuration that `execution_kind` of crates/benchplane-core/src/run.rs gives it. The JSON
-- decoder of the metadata record is a parameter.
pub mod Agrees
pub mod Metadata
pub mod Outcome
pub mod Bounds
use benchplane.Base.{
  ℕ, ◌+◌, ◌-◌, ◌*◌, ◌%◌, String, Bool, true, false, not, ◌&&◌, ◌||◌, Option, none, some, List, [],
  length, ltb, leb, ◌==◌, str_eq, if◌then◌else◌, keep_if, and_then, checked_add_u32,
  checked_mul_u64, checked_mul_usize, u32_mod, Result, ok, err, ok_or, ◌>>=◌, format, decimal, ◌∷◌,
  ℤ, pos, all, any, as_bytes, in_range,
}
use benchplane.Schema.Experiment.{
  ExperimentSpec, LlamaCppTarget, llama_cpp_generator_version, max_llama_cpp_records,
  max_llama_cpp_request_observations,
}
use benchplane.Schema.Text.{is_whitespace}
use benchplane.Schema.Evidence.{
  FailureRecord, RunState, NvidiaGpuProvenance, error_llama_cpp_output_invalid,
}
use benchplane.Schema.Measurement.{
  MeasurementPhase, MeasurementRecord, RequestObservation, phase_eq,
}
use benchplane.Execution.{ExecutionOutput, is_empty}
use benchplane.ChildSupervisor.Protocol.{ChildExecution, ChildProtocol}
use benchplane.CpuProbe.{expected_place, terminal_state_of}

abbrev pub max_serialized_record_bytes : ℕ
max_serialized_record_bytes = 16384

abbrev pub max_stdout_bytes : ℕ
max_stdout_bytes = 17 * max_serialized_record_bytes

pub record LlamaCppConfig : Type 0 where
  pub target : LlamaCppTarget
  pub requests : ℕ  -- u32
  pub warmup_runs : ℕ  -- u32
  pub repetitions : ℕ  -- u32
  pub output_tokens : ℕ  -- u32
  pub maximum_runtime_seconds : ℕ  -- u64

-- the arm of `execution_kind`
unfoldable pub config_of : ExperimentSpec → LlamaCppTarget → ℕ → LlamaCppConfig
config_of s target output_tokens = record {
  target = target;
  requests = s.workload.requests;
  warmup_runs = s.measurement.warmup_runs;
  repetitions = s.measurement.repetitions;
  output_tokens = output_tokens;
  maximum_runtime_seconds = s.lifecycle.maximum_runtime_seconds;
}

unfoldable pub protocol_failure : String → FailureRecord
protocol_failure message = record {
  phase = "running";
  code = error_llama_cpp_output_invalid;
  message = message;
  retryable = false;
  attempt_number = 1;
}

unfoldable pub expected_record_count : LlamaCppConfig → Result ℕ FailureRecord
expected_record_count config = do
  count ←
      ok_or
        (keep_if (checked_add_u32 config.warmup_runs config.repetitions)
          (λ c. leb c max_llama_cpp_records))
        (protocol_failure "llama.cpp requested excessive measurement records")
  observations ←
      ok_or
        (keep_if (checked_mul_u64 count config.requests)
          (λ o. leb o max_llama_cpp_request_observations))
        (protocol_failure "llama.cpp requested excessive request observations")
  bytes ←
      ok_or
        (keep_if (checked_mul_usize count max_serialized_record_bytes)
          (λ b. leb b max_stdout_bytes))
        (protocol_failure "llama.cpp requested output exceeds its transport bound")
  ok count

-- `all` on the enumerated observations, from a position on; the position is a `usize`
unfoldable pub observations_valid : ℕ → List RequestObservation → Bool
observations_valid position [] = true
observations_valid position (o ∷ rest) =
    o.request_index == position % u32_mod + 1
    && ltb 0 o.latency_micros
    && ltb 0 o.time_to_first_token_micros
    && leb o.time_to_first_token_micros o.latency_micros
    && observations_valid (position + 1) rest

unfoldable pub is_valid : MeasurementRecord → MeasurementPhase → ℕ → ℕ → Bool
unfolding phase_eq
is_valid r phase repetition_index requests =
    str_eq r.generator llama_cpp_generator_version
    && r.attempt_number == 1
    && phase_eq r.phase phase
    && r.repetition_index == repetition_index
    && r.sample_index == 1
    && ltb 0 r.latency_micros
    && ltb 0 r.time_to_first_token_micros
    && leb r.time_to_first_token_micros r.latency_micros
    && ltb 0 r.throughput_milli_requests_per_second
    && r.successful_requests == requests
    && r.failed_requests == 0
    && length r.request_observations == requests
    && observations_valid 0 r.request_observations

-- The phase and the index of a position are computed as in cpu_probe.rs.
unfoldable pub validate_record : MeasurementRecord → ℕ → LlamaCppConfig → Result (Unit {0}) String
unfolding is_valid
validate_record r position config =
    let (phase, repetition_index) = expected_place position config.warmup_runs in
    if is_valid r phase repetition_index config.requests
    then ok tt
    else err (
        format (
          "llama.cpp record "
          ∷ decimal (position + 1)
          ∷ " does not match the requested execution"
          ∷ []))

abbrev metadata_records : LlamaCppTarget → ℕ
metadata_records LlamaCppTarget.cpu = 0
metadata_records LlamaCppTarget.nvidia_cuda = 1

-- the protocol that the supervisor gets
unfoldable pub protocol_of : LlamaCppConfig → ℕ → ChildProtocol
protocol_of config expected_records = record {
  runtime_name = "llama.cpp SmolLM2";
  expected_metadata_records = metadata_records config.target;
  expected_records = expected_records;
  max_record_bytes = max_serialized_record_bytes;
  max_stdout_bytes = max_stdout_bytes;
  maximum_runtime_seconds = config.maximum_runtime_seconds;
  spawn_failure_code = "llamaCpp.spawnFailed";
  exit_failure_code = "llamaCpp.exitFailed";
  output_failure_code = error_llama_cpp_output_invalid;
  deadline_failure_code = "llamaCpp.deadlineExceeded";
  resource_failure_code = "llamaCpp.resourceAccountingFailed";
  special_exit_codes =
      record {
        exit_code = pos 20;
        failure_code = "llamaCpp.modelInitFailed";
        message = "packaged llama.cpp helper could not initialize its fixed model";
      }
      ∷ [];
}
