-- ===== src/Schema/Evidence.antt =====
-- crates/benchplane-schema/src/evidence.rs: the records of an evidence bundle and of a
-- comparison. A number keeps the width that its comment names by the invariants of its users.
use benchplane.Base.{ℕ, String, Bool, true, false, Option}

abbrev pub attempt_provenance_format_v1 : String
attempt_provenance_format_v1 = "benchplane-attempt-provenance/v1"

abbrev pub attempt_resources_format_v1 : String
attempt_resources_format_v1 = "benchplane-attempt-resources/v1"

abbrev pub evidence_comparison_format_v1 : String
evidence_comparison_format_v1 = "benchplane-evidence-comparison/v1"

abbrev pub benchplane_software_name : String
benchplane_software_name = "benchplane"

abbrev pub llama_cpp_engine_name : String
llama_cpp_engine_name = "llama.cpp"

abbrev pub llama_cpp_engine_version : String
llama_cpp_engine_version = "b10133"

abbrev pub llama_cpp_model_sha256 : String
llama_cpp_model_sha256 = "sha256:55aa88ddac43adce6af0e9be8d6cdff2337a3835cd9b50bbcd7a894eb66dfc75"

abbrev pub llama_cpp_backend_identity : String
llama_cpp_backend_identity = "nixpkgs-llama-cpp-cpu-only-dynamic/v1"

abbrev pub llama_cpp_cuda_backend_identity : String
llama_cpp_cuda_backend_identity = "nixpkgs-llama-cpp-nvidia-cuda-dynamic/v1"

abbrev pub error_local_fake_runtime_failure : String
error_local_fake_runtime_failure = "localFake.runtimeFailure"

abbrev pub error_local_fake_interrupted : String
error_local_fake_interrupted = "localFake.interrupted"

abbrev pub error_evidence_finalization_failed : String
error_evidence_finalization_failed = "evidence.finalizationFailed"

abbrev pub error_io_operation_failed : String
error_io_operation_failed = "io.operationFailed"

abbrev pub error_cpu_probe_output_invalid : String
error_cpu_probe_output_invalid = "cpuProbe.outputInvalid"

abbrev pub error_llama_cpp_output_invalid : String
error_llama_cpp_output_invalid = "llamaCpp.outputInvalid"

pub data RunState : Type 0 where
  created preparing running collecting finalizing succeeded failed interrupted : RunState

unfoldable pub as_str : RunState → String
as_str created = "created"
as_str preparing = "preparing"
as_str running = "running"
as_str collecting = "collecting"
as_str finalizing = "finalizing"
as_str succeeded = "succeeded"
as_str failed = "failed"
as_str interrupted = "interrupted"

unfoldable pub is_terminal : RunState → Bool
is_terminal succeeded = true
is_terminal failed = true
is_terminal interrupted = true
is_terminal _ = false

-- the derived `PartialEq`
unfoldable pub run_state_eq : RunState → RunState → Bool
run_state_eq created created = true
run_state_eq preparing preparing = true
run_state_eq running running = true
run_state_eq collecting collecting = true
run_state_eq finalizing finalizing = true
run_state_eq succeeded succeeded = true
run_state_eq failed failed = true
run_state_eq interrupted interrupted = true
run_state_eq _ _ = false

pub data AttemptStatus : Type 0 where
  created preparing running succeeded failed interrupted : AttemptStatus

pub data ValidityStatus : Type 0 where
  valid invalid indeterminate : ValidityStatus

pub record FailureRecord : Type 0 where
  pub phase : String
  pub code : String
  pub message : String
  pub retryable : Bool
  pub attempt_number : ℕ  -- u32

pub record RunRecord : Type 0 where
  pub run_id : String
  pub run_status : RunState
  pub created_at : String
  pub updated_at : String
  pub completed_at : Option String
  pub experiment_digest : String
  pub resolved_plan_digest : String
  pub attempt_count : ℕ  -- u32
  pub failure : Option FailureRecord

pub record AttemptRecord : Type 0 where
  pub run_id : String
  pub attempt_number : ℕ  -- u32
  pub status : AttemptStatus
  pub started_at : String
  pub updated_at : String
  pub completed_at : Option String
  pub failure : Option FailureRecord

pub data ResourceScope : Type 0 where
  helper_process_lifetime : ResourceScope

pub record ProcessResources : Type 0 where
  pub cpu_time_micros : ℕ  -- u64
  pub peak_rss_bytes : ℕ  -- u64

pub record AttemptResources : Type 0 where
  pub format : String
  pub run_id : String
  pub attempt_number : ℕ  -- u32
  pub scope : ResourceScope
  pub cpu_time_micros : ℕ  -- u64
  pub peak_rss_bytes : ℕ  -- u64

pub record OperatingSystemProvenance : Type 0 where
  pub family : String
  pub distribution : Option String
  pub version : Option String

pub record KernelProvenance : Type 0 where
  pub name : String
  pub release : Option String

pub record CpuProvenance : Type 0 where
  pub model : Option String
  pub logical_cpu_count : Option ℕ  -- u32

pub record PlatformProvenance : Type 0 where
  pub operating_system : OperatingSystemProvenance
  pub kernel : KernelProvenance
  pub architecture : String
  pub cpu : CpuProvenance

pub record SoftwareComponentProvenance : Type 0 where
  pub name : String
  pub version : String
  pub nix_store_path : Option String

pub record ModelProvenance : Type 0 where
  pub identity : String
  pub sha256 : String
  pub nix_store_path : Option String

pub record NvidiaOffloadProvenance : Type 0 where
  pub policy : String
  pub offloaded_layers : ℕ  -- u32
  pub total_layers : ℕ  -- u32

pub record NvidiaGpuProvenance : Type 0 where
  pub vendor : String
  pub device_name : String
  pub logical_device_index : ℕ  -- u32
  pub total_vram_bytes : ℕ  -- u64
  pub nvidia_driver_version : String
  pub cuda_driver_version : String
  pub cuda_runtime_version : String
  pub cuda_toolkit_version : String
  pub compute_capability : String
  pub offload : NvidiaOffloadProvenance

pub data DeviceClass : Type 0 where
  cpu nvidia_cuda : DeviceClass

pub record BackendProvenance : Type 0 where
  pub identity : String
  pub device_class : DeviceClass
  pub nix_store_path : Option String
  pub nvidia : Option NvidiaGpuProvenance

pub data RuntimeProvenance : Type 0 where
  -- generator
  local_fake : String → RuntimeProvenance
  cpu_probe : String → RuntimeProvenance
  -- generator, engine, model, backend
  llama_cpp :
      String → SoftwareComponentProvenance → ModelProvenance → BackendProvenance → RuntimeProvenance

pub record SoftwareProvenance : Type 0 where
  pub benchplane : SoftwareComponentProvenance
  pub runtime : RuntimeProvenance

pub record AttemptProvenance : Type 0 where
  pub format : String
  pub run_id : String
  pub attempt_number : ℕ  -- u32
  pub platform : PlatformProvenance
  pub software : SoftwareProvenance

pub record LifecycleEvent : Type 0 where
  pub run_id : String
  pub sequence : ℕ  -- u64
  pub recorded_at : String
  pub from_state : Option RunState
  pub to_state : RunState
  pub attempt_number : ℕ  -- u32
  pub failure : Option FailureRecord
