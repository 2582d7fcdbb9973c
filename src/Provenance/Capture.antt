-- ===== src/Provenance/Capture.antt =====
-- `capture` and `attach_nvidia` of crates/benchplane-core/src/provenance.rs. What the platform and
-- the build say of themselves is an `Environment`.
use benchplane.Base.{
  String, Bool, true, false, ◌&&◌, Option, none, some, Result, ok, err, if◌then◌else◌,
}
use benchplane.Schema.Experiment.{
  ResolvedExperiment, RuntimeSpec, LlamaCppTarget, local_fake_generator_version,
  cpu_probe_generator_version, llama_cpp_generator_version,
}
use benchplane.Schema.Evidence.{
  AttemptProvenance, PlatformProvenance, RuntimeProvenance, BackendProvenance, DeviceClass,
  NvidiaGpuProvenance, attempt_provenance_format_v1, benchplane_software_name,
  llama_cpp_engine_name, llama_cpp_engine_version, llama_cpp_model_sha256,
  llama_cpp_backend_identity, llama_cpp_cuda_backend_identity,
}

-- what is read from the system and from the build: the store paths are those that
-- `compiled_nix_store_path` and `current_executable_nix_store_path` give
pub record Environment : Type 0 where
  pub platform : PlatformProvenance
  pub version : String
  pub benchplane_path : Option String
  pub llama_cpp_path : Option String
  pub llama_cpp_cuda_path : Option String
  pub model_path : Option String

abbrev pub engine_path : Environment → LlamaCppTarget → Option String
engine_path env LlamaCppTarget.cpu = env.llama_cpp_path
engine_path env LlamaCppTarget.nvidia_cuda = env.llama_cpp_cuda_path

abbrev pub backend_identity : LlamaCppTarget → String
backend_identity LlamaCppTarget.cpu = llama_cpp_backend_identity
backend_identity LlamaCppTarget.nvidia_cuda = llama_cpp_cuda_backend_identity

abbrev pub device_class : LlamaCppTarget → DeviceClass
device_class LlamaCppTarget.cpu = DeviceClass.cpu
device_class LlamaCppTarget.nvidia_cuda = DeviceClass.nvidia_cuda

-- `none` is the `unreachable!`
unfoldable pub runtime_provenance : Environment → RuntimeSpec → Option RuntimeProvenance
runtime_provenance env (RuntimeSpec.local_fake seed scenario) =
    some (RuntimeProvenance.local_fake local_fake_generator_version)
runtime_provenance env (RuntimeSpec.cpu_probe tokens units) =
    some (RuntimeProvenance.cpu_probe cpu_probe_generator_version)
runtime_provenance env (RuntimeSpec.llama_cpp target model tokens) = some (
    RuntimeProvenance.llama_cpp llama_cpp_generator_version
      (record {
        name = llama_cpp_engine_name;
        version = llama_cpp_engine_version;
        nix_store_path = engine_path env target;
      })
      (record {
        identity = model;
        sha256 = llama_cpp_model_sha256;
        nix_store_path = env.model_path;
      })
      (record {
        identity = backend_identity target;
        device_class = device_class target;
        nix_store_path = engine_path env target;
        nvidia = none;
      }))
runtime_provenance env (RuntimeSpec.vllm model revision arguments) = none

unfoldable pub capture : Environment → String → ResolvedExperiment → Option AttemptProvenance
capture env run_id plan = elim (runtime_provenance env plan.experiment.spec.runtime) [
  | none ↦ none
  | some runtime ↦ some (record {
    format = attempt_provenance_format_v1;
    run_id = run_id;
    attempt_number = 1;
    platform = env.platform;
    software = record {
      benchplane = record {
        name = benchplane_software_name;
        version = env.version;
        nix_store_path = env.benchplane_path;
      };
      runtime = runtime;
    };
  })
]

abbrev takes_nvidia : BackendProvenance → Bool
takes_nvidia backend =
    elim backend.device_class [ DeviceClass.cpu ↦ false | DeviceClass.nvidia_cuda ↦ true ]
    && elim backend.nvidia [ none ↦ true | some nvidia ↦ false ]

abbrev attached : RuntimeProvenance → NvidiaGpuProvenance → Option RuntimeProvenance
attached (RuntimeProvenance.llama_cpp generator engine model backend) nvidia =
    if takes_nvidia backend
    then some (
        RuntimeProvenance.llama_cpp generator engine model
          (record backend { nvidia = some nvidia }))
    else none
attached _ nvidia = none

unfoldable pub attach_nvidia :
    AttemptProvenance → NvidiaGpuProvenance → Result AttemptProvenance String
attach_nvidia provenance nvidia = elim (attached provenance.software.runtime nvidia) [
  | none ↦ err "NVIDIA execution provenance does not match the prepared runtime"
  | some runtime ↦
      ok (record provenance { software = record provenance.software { runtime = runtime } })
]
