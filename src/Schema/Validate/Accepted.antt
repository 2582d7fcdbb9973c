-- ===== src/Schema/Validate/Accepted.antt =====
-- `Experiment::validate` against a description of the accepted documents by plain arithmetic.
use benchplane.Base.{
  ℕ, ◌+◌, ◌*◌, ◌≤◌, ◌<◌, String, true, false, ◌≡◌, ◌≢◌, ◌↔◌, List, [], ◌∷◌, str_eq, eq_iff, u32_mod,
  u64_mod, in_range, not, arith, All, any, concat-eq-nil, ok,
}
use benchplane.Schema.Float64.{Float64, is_finite, lt_zero, le_zero}
use benchplane.Schema.Text.{is_blank}
use benchplane.Schema.Experiment.{
  Experiment, ExperimentSpec, ProviderSpec, RuntimeSpec, MeasurementSpec, LlamaCppTarget,
  api_version, experiment_kind, evidence_format_v1, cpu_probe_workload_profile,
  llama_cpp_model_identity, llama_cpp_workload_profile,
}
use benchplane.Schema.Validate.{
  push_if, ValidationError, common_errors, local_fake_errors, cpu_probe_errors, llama_cpp_errors,
  provider_errors, vllm_errors, exceeds, reject_unless_empty, validation_errors, validate,
  cpu_probe_work, llama_cpp_work,
}

-- the records that a run emits when nothing fails
abbrev pub records : MeasurementSpec → ℕ
records m = m.warmup_runs + m.repetitions

abbrev pub RuntimeIsAccepted : RuntimeSpec → ExperimentSpec → Type 0
RuntimeIsAccepted (RuntimeSpec.local_fake seed scenario) s = records s.measurement ≤ 10000
RuntimeIsAccepted (RuntimeSpec.cpu_probe tokens units) s =
    (1 ≤ tokens)
    × (tokens ≤ 4096)
    × (1 ≤ units)
    × (units ≤ 1000000)
    × (s.workload.profile ≡ cpu_probe_workload_profile)
    × (s.workload.concurrency ≡ 1)
    × (records s.measurement ≤ 1000)
    × (records s.measurement * s.workload.requests * tokens * units ≤ 100000000)
RuntimeIsAccepted (RuntimeSpec.llama_cpp target model tokens) s =
    (model ≡ llama_cpp_model_identity)
    × (1 ≤ tokens)
    × (tokens ≤ 32)
    × (s.workload.profile ≡ llama_cpp_workload_profile)
    × (s.workload.concurrency ≡ 1)
    × (records s.measurement ≤ 16)
    × (records s.measurement * s.workload.requests * (96 + tokens) ≤ 8192)
RuntimeIsAccepted (RuntimeSpec.vllm model revision arguments) s =
    (is_blank model ≡ false) × (is_blank revision ≡ false)

abbrev pub ProviderIsAccepted : ProviderSpec → Float64 → Type 0
ProviderIsAccepted (ProviderSpec.aws region capacity types) budget =
    (is_finite budget ≡ true)
    × (le_zero budget ≡ false)
    × (is_blank region ≡ false)
    × (types ≢ [])
    × All (λ t. is_blank t ≡ false) types
ProviderIsAccepted _ budget = (is_finite budget ≡ true) × (lt_zero budget ≡ false)

pub record IsAccepted (e : Experiment) : Type 0 where
  pub version : e.api_version ≡ api_version
  pub kind : e.kind ≡ experiment_kind
  pub name : is_blank e.metadata.name ≡ false
  pub profile : is_blank e.spec.workload.profile ≡ false
  pub requests : 1 ≤ e.spec.workload.requests
  pub concurrency : 1 ≤ e.spec.workload.concurrency
  pub repetitions : 1 ≤ e.spec.measurement.repetitions
  pub runtime : RuntimeIsAccepted e.spec.runtime e.spec
  pub seconds_above : 1 ≤ e.spec.lifecycle.maximum_runtime_seconds
  pub seconds_below : e.spec.lifecycle.maximum_runtime_seconds ≤ 86400
  pub provider : ProviderIsAccepted e.spec.provider e.spec.budget.maximum_cost_usd
  pub format : e.spec.artifacts.format ≡ evidence_format_v1

le_mul : (a b : ℕ) → 1 ≤ b → a ≤ a * b
le_mul a b h = grind arith

-- The chain of checked products passes exactly when the plain product is within the bound.
pub cpu_probe_work_iff :
    (m : MeasurementSpec) (requests tokens units limit : ℕ)
    → limit < u64_mod
    → records m < u32_mod
    → 1 ≤ tokens
    → 1 ≤ units
    → (exceeds (cpu_probe_work m requests tokens units) limit ≡ false)
      ↔ (records m * requests * tokens * units ≤ limit)
unfolding cpu_probe_work
cpu_probe_work_iff m r t u limit hl hm ht hu =
    ground (arith, le_mul (records m * r) t, le_mul (records m * r * t) u)

pub llama_cpp_work_iff :
    (m : MeasurementSpec) (requests tokens limit : ℕ)
    → limit < u64_mod
    → records m < u32_mod
    → tokens ≤ 32
    → (exceeds (llama_cpp_work m requests tokens) limit ≡ false)
      ↔ (records m * requests * (96 + tokens) ≤ limit)
unfolding llama_cpp_work
llama_cpp_work_iff m r t limit hl hm ht = ground (arith, le_mul (records m * r) (96 + t))

common_errors_iff :
    (e : Experiment)
    → (common_errors e ≡ []) ↔ (
        (e.api_version ≡ api_version)
        × (e.kind ≡ experiment_kind)
        × (is_blank e.metadata.name ≡ false)
        × (is_blank e.spec.workload.profile ≡ false)
        × (1 ≤ e.spec.workload.requests)
        × (1 ≤ e.spec.workload.concurrency)
        × (1 ≤ e.spec.measurement.repetitions))
unfolding common_errors
common_errors_iff e =
    ground (arith, eq_iff e.api_version api_version, eq_iff e.kind experiment_kind)

cpu_probe_errors_iff :
    (tokens units : ℕ) (s : ExperimentSpec)
    → (cpu_probe_errors (RuntimeSpec.cpu_probe tokens units) s ≡ [])
      ↔ RuntimeIsAccepted (RuntimeSpec.cpu_probe tokens units) s
unfolding cpu_probe_errors
cpu_probe_errors_iff t u s = ground (
  arith,
  eq_iff s.workload.profile cpu_probe_workload_profile,
  cpu_probe_work_iff s.measurement s.workload.requests t u 100000000,
)

llama_cpp_errors_iff :
    (target : LlamaCppTarget) (model : String) (tokens : ℕ) (s : ExperimentSpec)
    → (llama_cpp_errors (RuntimeSpec.llama_cpp target model tokens) s ≡ [])
      ↔ RuntimeIsAccepted (RuntimeSpec.llama_cpp target model tokens) s
unfolding llama_cpp_errors
llama_cpp_errors_iff target model t s = ground (
  arith,
  eq_iff model llama_cpp_model_identity,
  eq_iff s.workload.profile llama_cpp_workload_profile,
  llama_cpp_work_iff s.measurement s.workload.requests t 8192,
)

any_blank_iff :
    (types : List String) → (any is_blank types ≡ false) ↔ All (λ t. is_blank t ≡ false) types
any_blank_iff [] = ground arith
any_blank_iff (t ∷ types) = ground (arith, any_blank_iff types)

provider_errors_iff :
    (p : ProviderSpec) (budget : Float64)
    → (provider_errors p budget ≡ []) ↔ ProviderIsAccepted p budget
unfolding provider_errors
provider_errors_iff (ProviderSpec.aws region capacity []) budget = ground arith
provider_errors_iff (ProviderSpec.aws region capacity (t ∷ types)) budget =
    ground (arith, any_blank_iff types)
provider_errors_iff _ budget = ground arith

-- Of the four blocks only the one of the document's runtime can push an error.
runtime_errors_iff :
    (r : RuntimeSpec) (s : ExperimentSpec)
    → ((local_fake_errors r s ≡ [])
        × (cpu_probe_errors r s ≡ [])
        × (llama_cpp_errors r s ≡ [])
        × (vllm_errors r ≡ []))
      ↔ RuntimeIsAccepted r s
unfolding local_fake_errors cpu_probe_errors llama_cpp_errors vllm_errors
runtime_errors_iff (RuntimeSpec.local_fake seed scenario) s = ground arith
runtime_errors_iff (RuntimeSpec.cpu_probe t u) s = ground (arith, cpu_probe_errors_iff t u s)
runtime_errors_iff (RuntimeSpec.llama_cpp target model t) s =
    ground (arith, llama_cpp_errors_iff target model t s)
runtime_errors_iff (RuntimeSpec.vllm model revision arguments) s = ground arith

reject_unless_empty_iff :
    (errors : List ValidationError) → (reject_unless_empty errors ≡ ok tt) ↔ (errors ≡ [])
reject_unless_empty_iff [] = ground arith
reject_unless_empty_iff (x ∷ errors) = ground arith

-- the parts of `validation_errors`, in order
abbrev PartsEmpty : Experiment → Type 0
PartsEmpty e =
    (common_errors e ≡ [])
    × (local_fake_errors e.spec.runtime e.spec ≡ [])
    × (cpu_probe_errors e.spec.runtime e.spec ≡ [])
    × (llama_cpp_errors e.spec.runtime e.spec ≡ [])
    × (1 ≤ e.spec.lifecycle.maximum_runtime_seconds)
    × (e.spec.lifecycle.maximum_runtime_seconds ≤ 86400)
    × (provider_errors e.spec.provider e.spec.budget.maximum_cost_usd ≡ [])
    × (vllm_errors e.spec.runtime ≡ [])
    × (e.spec.artifacts.format ≡ evidence_format_v1)

validation_errors_iff : (e : Experiment) → (validation_errors e ≡ []) ↔ PartsEmpty e
unfolding validation_errors
validation_errors_iff e = ground (
  arith,
  eq_iff e.spec.artifacts.format evidence_format_v1,
  concat-eq-nil (
      common_errors e
      ∷ local_fake_errors e.spec.runtime e.spec
      ∷ cpu_probe_errors e.spec.runtime e.spec
      ∷ llama_cpp_errors e.spec.runtime e.spec
      ∷ push_if (not (in_range 1 86400 e.spec.lifecycle.maximum_runtime_seconds))
          ValidationError.invalid_runtime
      ∷ provider_errors e.spec.provider e.spec.budget.maximum_cost_usd
      ∷ vllm_errors e.spec.runtime
      ∷ push_if (not (str_eq e.spec.artifacts.format evidence_format_v1))
          (ValidationError.unsupported_artifact_format e.spec.artifacts.format)
      ∷ []),
)

-- `validate` accepts exactly the documents that `IsAccepted` describes by plain arithmetic: the
-- checked, overflowing products of the source give the same verdict as the exact products.
pub validate_iff : (e : Experiment) → (validate e ≡ ok tt) ↔ IsAccepted e
unfolding validate
validate_iff e = ground (
  arith,
  reject_unless_empty_iff (validation_errors e),
  validation_errors_iff e,
  common_errors_iff e,
  runtime_errors_iff e.spec.runtime e.spec,
  provider_errors_iff e.spec.provider e.spec.budget.maximum_cost_usd,
)
