-- ===== src/Schema/Experiment.antt =====
-- crates/benchplane-schema/src/experiment.rs: the experiment document, its constants and its
-- defaults. A `BTreeMap` is its list of entries.
use benchplane.Base.{ℕ, ◌+◌, ◌/◌, String, Bool, true, false, List}
use benchplane.Schema.Float64.{Float64}

abbrev pub api_version : String
api_version = "benchplane/v1alpha1"

abbrev pub experiment_kind : String
experiment_kind = "Experiment"

abbrev pub evidence_format_v1 : String
evidence_format_v1 = "benchplane-evidence/v1"

abbrev pub local_fake_generator_version : String
local_fake_generator_version = "benchplane-local-fake/v1"

abbrev pub cpu_probe_generator_version : String
cpu_probe_generator_version = "benchplane-cpu-probe/v1"

abbrev pub cpu_probe_workload_profile : String
cpu_probe_workload_profile = "cpu-token-probe-v1"

abbrev pub llama_cpp_generator_version_v1 : String
llama_cpp_generator_version_v1 = "benchplane-llama-cpp-smollm2/v1"

abbrev pub llama_cpp_generator_version : String
llama_cpp_generator_version = "benchplane-llama-cpp-smollm2/v2"

abbrev pub llama_cpp_workload_profile : String
llama_cpp_workload_profile = "smollm2-chat-greedy-v1"

abbrev pub llama_cpp_model_identity : String
llama_cpp_model_identity = "smollm2-135m-instruct-q2-k-v1"

abbrev pub max_local_fake_records : ℕ
max_local_fake_records = 10000

abbrev pub max_cpu_probe_records : ℕ
max_cpu_probe_records = 1000

abbrev pub max_cpu_probe_output_tokens : ℕ
max_cpu_probe_output_tokens = 4096

abbrev pub max_cpu_probe_work_units_per_token : ℕ
max_cpu_probe_work_units_per_token = 1000000

abbrev pub max_cpu_probe_total_work_units : ℕ
max_cpu_probe_total_work_units = 100000000

abbrev pub max_llama_cpp_records : ℕ
max_llama_cpp_records = 16

abbrev pub max_llama_cpp_output_tokens : ℕ
max_llama_cpp_output_tokens = 32

abbrev pub max_llama_cpp_prompt_tokens : ℕ
max_llama_cpp_prompt_tokens = 96

abbrev pub max_llama_cpp_total_tokens : ℕ
max_llama_cpp_total_tokens = 8192

abbrev pub max_llama_cpp_request_observations : ℕ
max_llama_cpp_request_observations = max_llama_cpp_total_tokens / (max_llama_cpp_prompt_tokens + 1)

pub record Metadata : Type 0 where
  pub name : String
  pub labels : List (String × String)

pub data AwsCapacity : Type 0 where
  spot on_demand : AwsCapacity

pub data ProviderSpec : Type 0 where
  local_fake : ProviderSpec
  local : ProviderSpec
  -- region, capacity, instance types
  aws : String → AwsCapacity → List String → ProviderSpec

pub data LlamaCppTarget : Type 0 where
  cpu nvidia_cuda : LlamaCppTarget

unfoldable pub is_cpu : LlamaCppTarget → Bool
is_cpu cpu = true
is_cpu nvidia_cuda = false

abbrev pub default_llama_cpp_target : LlamaCppTarget
default_llama_cpp_target = cpu

abbrev pub default_llama_cpp_model : String
default_llama_cpp_model = llama_cpp_model_identity

abbrev pub default_llama_cpp_output_tokens : ℕ
default_llama_cpp_output_tokens = 4

pub data LocalFakeScenario : Type 0 where
  success runtime_failure interrupted insufficient_measurements : LocalFakeScenario

pub data RuntimeSpec : Type 0 where
  -- seed, scenario
  local_fake : ℕ → LocalFakeScenario → RuntimeSpec
  -- output tokens, work units per token
  cpu_probe : ℕ → ℕ → RuntimeSpec
  -- target, model, output tokens
  llama_cpp : LlamaCppTarget → String → ℕ → RuntimeSpec
  -- model, revision, arguments
  vllm : String → String → List String → RuntimeSpec

pub record WorkloadSpec : Type 0 where
  pub profile : String
  pub requests : ℕ  -- u32
  pub concurrency : ℕ  -- u32

abbrev pub default_concurrency : ℕ
default_concurrency = 1

pub record MeasurementSpec : Type 0 where
  pub warmup_runs : ℕ  -- u32
  pub repetitions : ℕ  -- u32

abbrev pub default_measurement : MeasurementSpec
default_measurement = record { warmup_runs = 1; repetitions = 3 }

pub record BudgetSpec : Type 0 where
  pub maximum_cost_usd : Float64

pub record LifecycleSpec : Type 0 where
  pub maximum_runtime_seconds : ℕ  -- u64
  pub destroy_on_completion : Bool

abbrev pub default_lifecycle : LifecycleSpec
default_lifecycle = record { maximum_runtime_seconds = 3600; destroy_on_completion = true }

pub record ArtifactSpec : Type 0 where
  pub public : Bool
  pub format : String

abbrev pub default_artifacts : ArtifactSpec
default_artifacts = record { public = false; format = evidence_format_v1 }

pub record ExperimentSpec : Type 0 where
  pub provider : ProviderSpec
  pub runtime : RuntimeSpec
  pub workload : WorkloadSpec
  pub measurement : MeasurementSpec
  pub budget : BudgetSpec
  pub lifecycle : LifecycleSpec
  pub artifacts : ArtifactSpec

pub record Experiment : Type 0 where
  pub api_version : String
  pub kind : String
  pub metadata : Metadata
  pub spec : ExperimentSpec

pub record ResolvedExperiment : Type 0 where
  pub api_version : String
  pub kind : String
  pub experiment : Experiment
  pub experiment_digest : String
  pub resolved_plan_digest : String
