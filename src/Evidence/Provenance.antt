-- ===== src/Evidence/Provenance.antt =====
-- `validate_attempt_resources`, `validate_attempt_provenance` and the checks that it calls, of
-- crates/benchplane-core/src/evidence.rs.
pub mod Nvidia
use benchplane.Base.{
  ℕ, ◌%◌, String, Bool, true, false, not, ◌&&◌, ◌||◌, Option, none, some, List, [], ◌∷◌, length,
  all, any, ltb, ◌==◌, str_eq, is_some_and, in_range, as_bytes, ok, err, fail_if, ◌>>◌, format,
}
use benchplane.Schema.Text.{chars, is_trimmed, is_control, is_ascii_digit, strip_prefix, split_once}
use benchplane.Schema.Experiment.{
  ResolvedExperiment, ProviderSpec, RuntimeSpec, LlamaCppTarget, is_cpu,
  local_fake_generator_version, cpu_probe_generator_version, llama_cpp_generator_version_v1,
  llama_cpp_generator_version, llama_cpp_model_identity,
}
use benchplane.Schema.Evidence.{
  RunState, run_state_eq, AttemptResources, AttemptProvenance, PlatformProvenance,
  SoftwareComponentProvenance, ModelProvenance, BackendProvenance, RuntimeProvenance, DeviceClass,
  NvidiaGpuProvenance, attempt_provenance_format_v1, attempt_resources_format_v1,
  benchplane_software_name, llama_cpp_engine_name, llama_cpp_engine_version, llama_cpp_model_sha256,
  llama_cpp_backend_identity, llama_cpp_cuda_backend_identity,
}
use benchplane.Schema.Measurement.{EvidenceManifest}
use benchplane.Execution.{is_empty}
use benchplane.Provenance.{nvidia_driver_version_supported}
use benchplane.LlamaCpp.Metadata.{compute_capability_valid}
use benchplane.Evidence.Error.{EvidenceError}
use benchplane.Evidence.Records.{Checked}

abbrev pub invalid_provenance : String → EvidenceError
invalid_provenance message = EvidenceError.invalid_attempt_provenance message

abbrev pub invalid_resources : String → EvidenceError
invalid_resources message = EvidenceError.invalid_attempt_resources message

-- the `matches!` on provider and runtime
unfoldable pub has_helper : ProviderSpec → RuntimeSpec → Bool
has_helper ProviderSpec.local (RuntimeSpec.cpu_probe tokens units) = true
has_helper ProviderSpec.local (RuntimeSpec.llama_cpp target model tokens) = true
has_helper _ _ = false

-- The only scope is `HelperProcessLifetime`, so the test on it never rejects.
unfoldable pub validate_attempt_resources :
    AttemptResources → EvidenceManifest → ResolvedExperiment → Checked
validate_attempt_resources resources manifest plan = do
  fail_if (not (str_eq resources.format attempt_resources_format_v1))
      (invalid_resources "unsupported format")
  fail_if (not (str_eq resources.run_id manifest.run_id) || not (resources.attempt_number == 1))
      (invalid_resources "runId or attemptNumber does not match the bundle")
  fail_if (not (resources.peak_rss_bytes % 1024 == 0))
      (invalid_resources "peakRssBytes is not an exact Linux KiB-to-byte conversion")
  fail_if (not (has_helper plan.experiment.spec.provider plan.experiment.spec.runtime))
      (invalid_resources "resource scope does not apply to the resolved runtime")

unfoldable pub require_provenance_value : String → String → Checked
require_provenance_value value field =
    let s = chars value in
    fail_if
      (is_empty s || not (is_trimmed s) || ltb 256 (length (as_bytes value)) || any is_control s)
      (invalid_provenance (format (field ∷ " is empty, oversized, or contains controls" ∷ [])))

unfoldable pub optional_provenance_value : Option String → String → Checked
optional_provenance_value none field = ok tt
optional_provenance_value (some value) field = require_provenance_value value field

-- The digits of Nix's base 32 and the characters of a name are ASCII, so their tests read bytes.
abbrev pub is_nix_base32 : ℕ → Bool
is_nix_base32 b =
    in_range 48 57 b
    || in_range 97 100 b
    || in_range 102 110 b
    || in_range 112 115 b
    || in_range 118 122 b

abbrev pub is_ascii_alphanumeric : ℕ → Bool
is_ascii_alphanumeric b = is_ascii_digit b || in_range 65 90 b || in_range 97 122 b

-- `"+-._?=".contains(character)`
abbrev is_name_mark : ℕ → Bool
is_name_mark b = b == 43 || b == 45 || b == 46 || b == 95 || b == 63 || b == 61

-- `unwrap_or_default`
abbrev parts_or_default : Option (List ℕ × List ℕ) → List ℕ × List ℕ
parts_or_default none = ([], [])
parts_or_default (some parts) = parts

abbrev pub is_store_entry : List ℕ → Bool
is_store_entry entry =
    let (hash, name) = parts_or_default (split_once 45 entry) in
    not (any (λ b. b == 47) entry)
    && length hash == 32
    && all is_nix_base32 hash
    && not (is_empty name)
    && all (λ b. is_ascii_alphanumeric b || is_name_mark b) name

unfoldable pub optional_nix_store_path : Option String → String → Checked
unfolding strip_prefix split_once
optional_nix_store_path none field = ok tt
optional_nix_store_path (some value) field =
    elim (strip_prefix (as_bytes "/nix/store/") (as_bytes value)) [
      | none ↦ err (invalid_provenance (format (field ∷ " is not a Nix store object path" ∷ [])))
      | some entry ↦
          fail_if (ltb 512 (length (as_bytes value)) || not (is_store_entry entry))
            (invalid_provenance (format (field ∷ " is not a bounded Nix store object path" ∷ [])))
    ]

unfoldable pub require_matching_generator : String → Option String → Checked
require_matching_generator generator measured =
    fail_if (is_some_and measured (λ g. not (str_eq g generator)))
      (invalid_provenance "runtime generator does not match measurements")

-- the first test of `validate_nvidia_provenance`
unfoldable pub nvidia_unsupported : NvidiaGpuProvenance → Bool
nvidia_unsupported nvidia =
    not (str_eq nvidia.vendor "NVIDIA")
    || not (nvidia.logical_device_index == 0)
    || nvidia.total_vram_bytes == 0
    || not (nvidia_driver_version_supported nvidia.nvidia_driver_version)
    || not (str_eq nvidia.offload.policy "singleDeviceAllLayers")
    || nvidia.offload.total_layers == 0
    || not (nvidia.offload.offloaded_layers == nvidia.offload.total_layers)

unfoldable pub validate_nvidia_provenance : NvidiaGpuProvenance → Checked
validate_nvidia_provenance nvidia = do
  fail_if (nvidia_unsupported nvidia)
      (invalid_provenance "NVIDIA device or offload proof is not supported")
  require_provenance_value nvidia.device_name "runtime.backend.nvidia.deviceName"
  require_provenance_value nvidia.nvidia_driver_version "runtime.backend.nvidia.nvidiaDriverVersion"
  require_provenance_value nvidia.cuda_driver_version "runtime.backend.nvidia.cudaDriverVersion"
  require_provenance_value nvidia.cuda_runtime_version "runtime.backend.nvidia.cudaRuntimeVersion"
  require_provenance_value nvidia.cuda_toolkit_version "runtime.backend.nvidia.cudaToolkitVersion"
  require_provenance_value nvidia.compute_capability "runtime.backend.nvidia.computeCapability"
  fail_if (not (compute_capability_valid nvidia.compute_capability))
      (invalid_provenance "NVIDIA compute capability is malformed")

-- the derived `PartialEq`
unfoldable pub device_eq : DeviceClass → DeviceClass → Bool
device_eq DeviceClass.cpu DeviceClass.cpu = true
device_eq DeviceClass.nvidia_cuda DeviceClass.nvidia_cuda = true
device_eq _ _ = false

unfoldable pub text_option_eq : Option String → Option String → Bool
text_option_eq none none = true
text_option_eq (some a) (some b) = str_eq a b
text_option_eq _ _ = false

abbrev pub is_some : Option String → Bool
is_some none = false
is_some (some a) = true

-- the `match` on the target and the backend
unfoldable pub validate_backend : LlamaCppTarget → BackendProvenance → RunState → Checked
unfolding device_eq
validate_backend LlamaCppTarget.cpu backend status =
    fail_if
      (not (
        str_eq backend.identity llama_cpp_backend_identity
        && device_eq backend.device_class DeviceClass.cpu
        && elim backend.nvidia [ none ↦ true | some nvidia ↦ false ]))
      (invalid_provenance "llamaCpp backend does not match the resolved execution target")
validate_backend LlamaCppTarget.nvidia_cuda backend status = do
  fail_if
      (not (
        str_eq backend.identity llama_cpp_cuda_backend_identity
        && device_eq backend.device_class DeviceClass.nvidia_cuda))
      (invalid_provenance "llamaCpp backend does not match the resolved execution target")
  elim backend.nvidia [
    | some nvidia ↦ validate_nvidia_provenance nvidia
    | none ↦
        fail_if (run_state_eq status RunState.succeeded)
          (invalid_provenance "successful nvidiaCuda execution requires NVIDIA provenance")
  ]

-- the first test of the arm of `LlamaCpp`
unfoldable pub lineage_unsupported :
    String → SoftwareComponentProvenance → ModelProvenance → LlamaCppTarget → String → Bool
unfolding is_cpu
lineage_unsupported generator engine model target resolved_model =
    not (
      str_eq generator llama_cpp_generator_version_v1
      || str_eq generator llama_cpp_generator_version)
    || not (str_eq engine.name llama_cpp_engine_name)
    || not (str_eq engine.version llama_cpp_engine_version)
    || not (str_eq model.identity llama_cpp_model_identity)
    || not (str_eq model.identity resolved_model)
    || not (str_eq model.sha256 llama_cpp_model_sha256)
    || (not (is_cpu target) && not (str_eq generator llama_cpp_generator_version))

unfoldable pub validate_store_lineage :
    SoftwareComponentProvenance → ModelProvenance → BackendProvenance → Checked
validate_store_lineage engine model backend = do
  optional_nix_store_path engine.nix_store_path "runtime.engine.nixStorePath"
  optional_nix_store_path model.nix_store_path "runtime.model.nixStorePath"
  optional_nix_store_path backend.nix_store_path "runtime.backend.nixStorePath"
  let present =
      is_some engine.nix_store_path
      ∷ is_some model.nix_store_path
      ∷ is_some backend.nix_store_path
      ∷ []
  fail_if (any (λ p. p) present && not (all (λ p. p) present))
      (invalid_provenance "llamaCpp Nix store lineage must be wholly present or absent")
  fail_if (not (text_option_eq engine.nix_store_path backend.nix_store_path))
      (invalid_provenance "llamaCpp engine and backend must identify the same Nix store object")

-- the `match` on the runtime
unfoldable pub validate_runtime_provenance :
    RuntimeProvenance → RuntimeSpec → RunState → Option String → Checked
validate_runtime_provenance (RuntimeProvenance.local_fake generator)
      (RuntimeSpec.local_fake seed scenario) status measured =
    do
      fail_if (not (str_eq generator local_fake_generator_version))
          (invalid_provenance "localFake generator identity is not supported")
      require_matching_generator generator measured
validate_runtime_provenance (RuntimeProvenance.cpu_probe generator)
      (RuntimeSpec.cpu_probe tokens units) status measured =
    do
      fail_if (not (str_eq generator cpu_probe_generator_version))
          (invalid_provenance "cpuProbe generator identity is not supported")
      require_matching_generator generator measured
validate_runtime_provenance (RuntimeProvenance.llama_cpp generator engine model backend)
      (RuntimeSpec.llama_cpp target resolved_model tokens) status measured =
    do
      fail_if (lineage_unsupported generator engine model target resolved_model)
          (invalid_provenance "llamaCpp software lineage is not supported")
      validate_backend target backend status
      require_matching_generator generator measured
      validate_store_lineage engine model backend
validate_runtime_provenance _ _ status measured =
    err (invalid_provenance "runtime kind does not match the resolved plan")

unfoldable pub validate_platform : PlatformProvenance → Checked
validate_platform platform = do
  require_provenance_value platform.operating_system.family "operatingSystem.family"
  optional_provenance_value platform.operating_system.distribution "operatingSystem.distribution"
  optional_provenance_value platform.operating_system.version "operatingSystem.version"
  require_provenance_value platform.kernel.name "kernel.name"
  optional_provenance_value platform.kernel.release "kernel.release"
  require_provenance_value platform.architecture "architecture"
  optional_provenance_value platform.cpu.model "cpu.model"
  fail_if (is_some_and platform.cpu.logical_cpu_count (λ n. n == 0))
      (invalid_provenance "cpu.logicalCpuCount must be positive when present")

unfoldable pub validate_attempt_provenance :
    AttemptProvenance → EvidenceManifest → ResolvedExperiment → Option String → Checked
validate_attempt_provenance provenance manifest plan measured =
    let component = provenance.software.benchplane in
    do
      fail_if (not (str_eq provenance.format attempt_provenance_format_v1))
          (invalid_provenance "unsupported format")
      fail_if
          (not (str_eq provenance.run_id manifest.run_id) || not (provenance.attempt_number == 1))
          (invalid_provenance "runId or attemptNumber does not match the bundle")
      validate_platform provenance.platform
      fail_if (not (str_eq component.name benchplane_software_name))
          (invalid_provenance "software.benchplane.name is not supported")
      require_provenance_value component.version "software.benchplane.version"
      optional_nix_store_path component.nix_store_path "software.benchplane.nixStorePath"
      validate_runtime_provenance provenance.software.runtime plan.experiment.spec.runtime
          manifest.run_status measured
