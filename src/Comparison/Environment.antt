-- ===== src/Comparison/Environment.antt =====
-- `compare_environment` of crates/benchplane-core/src/comparison.rs.
use benchplane.Base.{
  String, Option, none, some, List, [], ◌∷◌, str_eq, if◌then◌else◌, format, decimal,
}
use mathlib.Core.Option
use benchplane.Schema.Evidence.{
  AttemptProvenance, RuntimeProvenance, NvidiaGpuProvenance, NvidiaOffloadProvenance,
}
use benchplane.Schema.Measurement.{EnvironmentRelationship, EnvironmentComparison}

unfoldable pub relationship_of : Option String → Option String → EnvironmentRelationship
relationship_of (some baseline) (some candidate) =
    if str_eq baseline candidate
    then EnvironmentRelationship.same
    else EnvironmentRelationship.different
relationship_of _ _ = EnvironmentRelationship.unknown

unfoldable pub environment_field : String → Option String → Option String → EnvironmentComparison
unfolding relationship_of
environment_field field baseline candidate = record {
  field = field;
  baseline = baseline;
  candidate = candidate;
  relationship = relationship_of baseline candidate;
}

abbrev offload_text : NvidiaOffloadProvenance → String
offload_text o =
    format (o.policy ∷ ":" ∷ decimal o.offloaded_layers ∷ "/" ∷ decimal o.total_layers ∷ [])

unfoldable pub compare_nvidia :
    Option NvidiaGpuProvenance → Option NvidiaGpuProvenance → List EnvironmentComparison
unfolding environment_field
compare_nvidia (some b) (some c) =
    environment_field "software.runtime.backend.nvidia.deviceName" (some b.device_name)
      (some c.device_name)
    ∷ environment_field "software.runtime.backend.nvidia.totalVramBytes"
        (some (decimal b.total_vram_bytes)) (some (decimal c.total_vram_bytes))
    ∷ environment_field "software.runtime.backend.nvidia.nvidiaDriverVersion"
        (some b.nvidia_driver_version) (some c.nvidia_driver_version)
    ∷ environment_field "software.runtime.backend.nvidia.cudaDriverVersion"
        (some b.cuda_driver_version) (some c.cuda_driver_version)
    ∷ environment_field "software.runtime.backend.nvidia.cudaRuntimeVersion"
        (some b.cuda_runtime_version) (some c.cuda_runtime_version)
    ∷ environment_field "software.runtime.backend.nvidia.cudaToolkitVersion"
        (some b.cuda_toolkit_version) (some c.cuda_toolkit_version)
    ∷ environment_field "software.runtime.backend.nvidia.computeCapability"
        (some b.compute_capability) (some c.compute_capability)
    ∷ environment_field "software.runtime.backend.nvidia.offload" (some (offload_text b.offload))
        (some (offload_text c.offload))
    ∷ []
compare_nvidia none none = []
compare_nvidia b c =
    record {
      field = "software.runtime.backend.nvidia";
      baseline = Option.map (λ g. "present") b;
      candidate = Option.map (λ g. "present") c;
      relationship = EnvironmentRelationship.unknown;
    }
    ∷ []

unfoldable pub compare_runtimes : RuntimeProvenance → RuntimeProvenance → List EnvironmentComparison
unfolding compare_nvidia environment_field
compare_runtimes (RuntimeProvenance.llama_cpp g engine model backend)
      (RuntimeProvenance.llama_cpp g' engine' model' backend') =
    environment_field "software.runtime.engine.nixStorePath" engine.nix_store_path
      engine'.nix_store_path
    ∷ environment_field "software.runtime.model.nixStorePath" model.nix_store_path
        model'.nix_store_path
    ∷ environment_field "software.runtime.backend.nixStorePath" backend.nix_store_path
        backend'.nix_store_path
    ∷ compare_nvidia backend.nvidia backend'.nvidia
compare_runtimes _ _ = []

unfoldable pub compare_environment :
    AttemptProvenance → AttemptProvenance → List EnvironmentComparison
unfolding compare_runtimes environment_field
compare_environment b c =
    let p = b.platform in
    let q = c.platform in
    environment_field "platform.architecture" (some p.architecture) (some q.architecture)
    ∷ environment_field "platform.cpu.model" p.cpu.model q.cpu.model
    ∷ environment_field "platform.cpu.logicalCpuCount" (Option.map decimal p.cpu.logical_cpu_count)
        (Option.map decimal q.cpu.logical_cpu_count)
    ∷ environment_field "platform.operatingSystem.family" (some p.operating_system.family)
        (some q.operating_system.family)
    ∷ environment_field "platform.operatingSystem.distribution" p.operating_system.distribution
        q.operating_system.distribution
    ∷ environment_field "platform.operatingSystem.version" p.operating_system.version
        q.operating_system.version
    ∷ environment_field "platform.kernel.name" (some p.kernel.name) (some q.kernel.name)
    ∷ environment_field "platform.kernel.release" p.kernel.release q.kernel.release
    ∷ environment_field "software.benchplane.version" (some b.software.benchplane.version)
        (some c.software.benchplane.version)
    ∷ environment_field "software.benchplane.nixStorePath" b.software.benchplane.nix_store_path
        c.software.benchplane.nix_store_path
    ∷ compare_runtimes b.software.runtime c.software.runtime
