-- ===== src/Schema/Validate.antt =====
-- `Experiment::validate` of crates/benchplane-schema/src/experiment.rs. The vector of errors is
-- the concatenation of what each `if` pushes, in the source's order.
pub mod Accepted
use benchplane.Base.{
  ℕ, ◌+◌, String, Bool, true, false, not, ◌&&◌, ◌||◌, ◌≡◌, Option, none, some, List, [], ◌∷◌, ◌++◌,
  ltb, ◌==◌, str_eq, if◌then◌else◌, in_range, is_none_or, and_then, any, concat, checked_add_u32,
  checked_mul_u64, Result, ok, err,
}
use benchplane.Schema.Float64.{Float64, is_finite, lt_zero, le_zero}
use benchplane.Schema.Experiment.{
  Experiment, ExperimentSpec, ProviderSpec, RuntimeSpec, WorkloadSpec, MeasurementSpec,
  api_version as supported_api_version, experiment_kind, evidence_format_v1, max_local_fake_records,
  max_cpu_probe_output_tokens, max_cpu_probe_work_units_per_token, cpu_probe_workload_profile,
  max_cpu_probe_records, max_cpu_probe_total_work_units, llama_cpp_model_identity,
  max_llama_cpp_output_tokens, llama_cpp_workload_profile, max_llama_cpp_records,
  max_llama_cpp_prompt_tokens, max_llama_cpp_total_tokens,
}
use benchplane.Schema.Text.{is_blank}

pub data ValidationError : Type 0 where
  api_version : String → ValidationError
  kind : String → ValidationError
  empty_name empty_workload_profile no_requests no_concurrency no_repetitions : ValidationError
  local_fake_record_limit invalid_cpu_probe_output_tokens : ValidationError
  invalid_cpu_probe_work_units invalid_cpu_probe_profile : ValidationError
  unsupported_cpu_probe_concurrency cpu_probe_record_limit cpu_probe_work_limit : ValidationError
  invalid_llama_cpp_model invalid_llama_cpp_output_tokens : ValidationError
  invalid_llama_cpp_profile unsupported_llama_cpp_concurrency : ValidationError
  llama_cpp_record_limit llama_cpp_work_limit invalid_local_budget : ValidationError
  invalid_aws_budget invalid_runtime missing_instance_types empty_aws_region : ValidationError
  empty_aws_instance_type invalid_vllm_identity : ValidationError
  unsupported_artifact_format : String → ValidationError

-- `if test { errors.push(e); }`
abbrev pub push_if : Bool → ValidationError → List ValidationError
push_if test e = if test then e ∷ [] else []

-- `warmup_runs.checked_add(repetitions)`
abbrev pub record_count : MeasurementSpec → Option ℕ
record_count m = checked_add_u32 m.warmup_runs m.repetitions

abbrev pub exceeds : Option ℕ → ℕ → Bool
exceeds total limit = is_none_or total (λ t. ltb limit t)

-- requested work units of a CPU probe
unfoldable pub cpu_probe_work : MeasurementSpec → ℕ → ℕ → ℕ → Option ℕ
cpu_probe_work m requests output_tokens units =
    and_then
      (and_then (and_then (record_count m) (λ v. checked_mul_u64 v requests))
        (λ v. checked_mul_u64 v output_tokens))
      (λ v. checked_mul_u64 v units)

-- requested prompt-plus-generated tokens of the llama.cpp runtime
unfoldable pub llama_cpp_work : MeasurementSpec → ℕ → ℕ → Option ℕ
llama_cpp_work m requests output_tokens =
    and_then (and_then (record_count m) (λ v. checked_mul_u64 v requests)) (λ v.
      and_then (checked_add_u32 max_llama_cpp_prompt_tokens output_tokens)
        (λ tokens. checked_mul_u64 v tokens))

-- the head of the function: what is checked whatever the runtime and the provider
unfoldable pub common_errors : Experiment → List ValidationError
unfolding is_blank
common_errors e =
    push_if (not (str_eq e.api_version supported_api_version)) (api_version e.api_version)
    ++ push_if (not (str_eq e.kind experiment_kind)) (kind e.kind)
    ++ push_if (is_blank e.metadata.name) empty_name
    ++ push_if (is_blank e.spec.workload.profile) empty_workload_profile
    ++ push_if (e.spec.workload.requests == 0) no_requests
    ++ push_if (e.spec.workload.concurrency == 0) no_concurrency
    ++ push_if (e.spec.measurement.repetitions == 0) no_repetitions

-- the block of `RuntimeSpec::LocalFake`
unfoldable pub local_fake_errors : RuntimeSpec → ExperimentSpec → List ValidationError
local_fake_errors (RuntimeSpec.local_fake seed scenario) s =
    push_if (exceeds (record_count s.measurement) max_local_fake_records) local_fake_record_limit
local_fake_errors _ s = []

-- the block of `RuntimeSpec::CpuProbe`
unfoldable pub cpu_probe_errors : RuntimeSpec → ExperimentSpec → List ValidationError
unfolding cpu_probe_work
cpu_probe_errors (RuntimeSpec.cpu_probe output_tokens units) s =
    push_if (not (in_range 1 max_cpu_probe_output_tokens output_tokens))
      invalid_cpu_probe_output_tokens
    ++ push_if (not (in_range 1 max_cpu_probe_work_units_per_token units))
        invalid_cpu_probe_work_units
    ++ push_if (not (str_eq s.workload.profile cpu_probe_workload_profile))
        invalid_cpu_probe_profile
    ++ push_if (not (s.workload.concurrency == 1)) unsupported_cpu_probe_concurrency
    ++ push_if (exceeds (record_count s.measurement) max_cpu_probe_records) cpu_probe_record_limit
    ++ push_if
        (exceeds (cpu_probe_work s.measurement s.workload.requests output_tokens units)
          max_cpu_probe_total_work_units)
        cpu_probe_work_limit
cpu_probe_errors _ s = []

-- the block of `RuntimeSpec::LlamaCpp`
unfoldable pub llama_cpp_errors : RuntimeSpec → ExperimentSpec → List ValidationError
unfolding llama_cpp_work
llama_cpp_errors (RuntimeSpec.llama_cpp target model output_tokens) s =
    push_if (not (str_eq model llama_cpp_model_identity)) invalid_llama_cpp_model
    ++ push_if (not (in_range 1 max_llama_cpp_output_tokens output_tokens))
        invalid_llama_cpp_output_tokens
    ++ push_if (not (str_eq s.workload.profile llama_cpp_workload_profile))
        invalid_llama_cpp_profile
    ++ push_if (not (s.workload.concurrency == 1)) unsupported_llama_cpp_concurrency
    ++ push_if (exceeds (record_count s.measurement) max_llama_cpp_records) llama_cpp_record_limit
    ++ push_if
        (exceeds (llama_cpp_work s.measurement s.workload.requests output_tokens)
          max_llama_cpp_total_tokens)
        llama_cpp_work_limit
llama_cpp_errors _ s = []

instance_type_errors : List String → List ValidationError
unfolding is_blank
instance_type_errors [] = missing_instance_types ∷ []
instance_type_errors types = push_if (any is_blank types) empty_aws_instance_type

-- the `match` on the provider
unfoldable pub provider_errors : ProviderSpec → Float64 → List ValidationError
unfolding instance_type_errors is_finite lt_zero le_zero
provider_errors (ProviderSpec.aws region capacity instance_types) budget =
    push_if (not (is_finite budget) || le_zero budget) invalid_aws_budget
    ++ push_if (is_blank region) empty_aws_region
    ++ instance_type_errors instance_types
provider_errors _ budget = push_if (not (is_finite budget) || lt_zero budget) invalid_local_budget

-- the block of `RuntimeSpec::Vllm`
unfoldable pub vllm_errors : RuntimeSpec → List ValidationError
unfolding is_blank
vllm_errors (RuntimeSpec.vllm model revision arguments) =
    push_if (is_blank model || is_blank revision) invalid_vllm_identity
vllm_errors _ = []

unfoldable pub validation_errors : Experiment → List ValidationError
validation_errors e = concat (
    common_errors e
    ∷ local_fake_errors e.spec.runtime e.spec
    ∷ cpu_probe_errors e.spec.runtime e.spec
    ∷ llama_cpp_errors e.spec.runtime e.spec
    ∷ push_if (not (in_range 1 86400 e.spec.lifecycle.maximum_runtime_seconds)) invalid_runtime
    ∷ provider_errors e.spec.provider e.spec.budget.maximum_cost_usd
    ∷ vllm_errors e.spec.runtime
    ∷ push_if (not (str_eq e.spec.artifacts.format evidence_format_v1))
        (unsupported_artifact_format e.spec.artifacts.format)
    ∷ [])

-- `if errors.is_empty() { Ok(()) } else { Err(errors) }`
abbrev pub reject_unless_empty : List ValidationError → Result (Unit {0}) (List ValidationError)
reject_unless_empty [] = ok tt
reject_unless_empty errors = err errors

unfoldable pub validate : Experiment → Result (Unit {0}) (List ValidationError)
validate e = reject_unless_empty (validation_errors e)
