-- ===== src/Examples/Checks.antt =====
-- Checks of plans, names, GPUs and contracts, at concrete inputs.
use benchplane.Base.{
  some, ℕ, ◌≡◌, ◌≤◌, ◌↔◌, refl, String, false, List, [], ◌∷◌, All, Result, ok, err, length,
  as_bytes,
}
use benchplane.Schema.Text.{chars}
use benchplane.Schema.Experiment.{
  Experiment, ResolvedExperiment, LlamaCppTarget, llama_cpp_generator_version,
  llama_cpp_model_identity, evidence_format_v1,
}
use benchplane.Schema.Evidence.{RunState, DeviceClass, ValidityStatus, NvidiaGpuProvenance}
use benchplane.Schema.Measurement.{EvidenceManifest, LlamaMeasurementContract}
use benchplane.LlamaCpp.Metadata.{NvidiaMetadataRecord, metadata_invalid}
use benchplane.Provenance.{split}
use benchplane.Resolution.{ResolvedPlanContent, sha256_digest, plan_of, resolve_experiment}
use benchplane.Resolution.Digests.{resolved_plan_iff}
use benchplane.Evidence.Consistency.{Decoders, validate_resolved_plan}
use benchplane.Evidence.Paths.{
  IsEntry, check_name, validate_relative_path, normalized_relative_path, components, join,
  check_name_stays,
}
use benchplane.Evidence.Provenance.{validate_nvidia_provenance}
use benchplane.Evidence.Provenance.Nvidia.{nvidia_metadata_iff}
use benchplane.Comparison.Contract.{contract_differences}
use benchplane.Comparison.Differences.{contract_differences_iff}
use benchplane.Schema.Validate.{
  validate, validation_errors, common_errors, local_fake_errors, cpu_probe_errors, llama_cpp_errors,
  provider_errors, vllm_errors,
}
use benchplane.Examples.Plans.{fake_experiment}

abbrev pub digits : List ℕ → String
digits bytes = "00ff00ff00ff00ff00ff00ff00ff00ff00ff00ff00ff00ff00ff00ff00ff00ff"

abbrev pub experiment_bytes : Experiment → Result (List ℕ) String
experiment_bytes e = ok (1 ∷ [])

abbrev pub content_bytes : ResolvedPlanContent → Result (List ℕ) String
content_bytes c = ok (2 ∷ [])

abbrev pub digest : String
digest = "sha256:00ff00ff00ff00ff00ff00ff00ff00ff00ff00ff00ff00ff00ff00ff00ff00ff"

abbrev pub plan : ResolvedExperiment
plan = plan_of fake_experiment digest digest

abbrev pub manifest_for : String → EvidenceManifest
manifest_for run_id = record {
  format = evidence_format_v1;
  run_id = run_id;
  run_status = RunState.succeeded;
  validity_status = ValidityStatus.valid;
  experiment_digest = digest;
  resolved_plan_digest = digest;
  attempt_count = 1;
}

abbrev manifest : EvidenceManifest
manifest = manifest_for "run-1"

resolved_fake : resolve_experiment experiment_bytes content_bytes digits fake_experiment ≡ ok plan
unfolding resolve_experiment sha256_digest validate validation_errors common_errors
    local_fake_errors cpu_probe_errors llama_cpp_errors provider_errors vllm_errors
resolved_fake = refl

abbrev no_record : {A : Type 0} → List ℕ → Result A String
no_record bytes = err "not a record"

abbrev no_decoders : Decoders
no_decoders = record {
  experiment = no_record;
  plan = no_record;
  measurement = no_record;
  run = no_record;
  attempt = no_record;
  provenance = no_record;
  resources = no_record;
  validity = no_record;
  summary = no_record;
  event = no_record;
}

resolved_plan_iff_example :
    (validate_resolved_plan no_decoders experiment_bytes content_bytes digits plan manifest ≡ ok tt)
    ↔ ((digest ≡ digest) × (digest ≡ digest))
resolved_plan_iff_example =
    resolved_plan_iff experiment_bytes content_bytes digits no_decoders fake_experiment plan
      manifest resolved_fake

abbrev nvidia : NvidiaGpuProvenance
nvidia = record {
  vendor = "NVIDIA";
  device_name = "NVIDIA L4";
  logical_device_index = 0;
  total_vram_bytes = 24000000000;
  nvidia_driver_version = "580.95.05";
  cuda_driver_version = "13.0";
  cuda_runtime_version = "12.8";
  cuda_toolkit_version = "12.8";
  compute_capability = "8.9";
  offload = record { policy = "singleDeviceAllLayers"; offloaded_layers = 31; total_layers = 31 };
}

abbrev gpu : NvidiaMetadataRecord
gpu = record { format = "benchplane-llama-cpp-nvidia/v1"; nvidia = nvidia }

nvidia_metadata_iff_example :
    (validate_nvidia_provenance nvidia ≡ ok tt)
    ↔ ((metadata_invalid gpu ≡ false) × (length (as_bytes nvidia.compute_capability) ≤ 256))
nvidia_metadata_iff_example = nvidia_metadata_iff gpu refl

stays : check_name "attempts/0001/attempt.json" ≡ some (ok tt)
unfolding check_name validate_relative_path normalized_relative_path components join
stays = refl

check_name_stays_example : All IsEntry (split 47 (chars "attempts/0001/attempt.json"))
check_name_stays_example = check_name_stays "attempts/0001/attempt.json" stays

abbrev contract : ℕ → LlamaMeasurementContract
contract warmups = record {
  provider = "local";
  runtime = "llamaCpp";
  target = LlamaCppTarget.cpu;
  generator = llama_cpp_generator_version;
  model = llama_cpp_model_identity;
  model_sha256 = "00ff";
  engine_name = "llama.cpp";
  engine_version = "b1";
  backend = "cpu";
  device_class = DeviceClass.cpu;
  workload_profile = "chat";
  output_tokens = 4;
  requests_per_repetition = 2;
  concurrency = 1;
  warmup_runs = warmups;
  measured_repetitions = 2;
}

contract_differences_iff_example :
    (contract_differences (contract 1) (contract 2) ≡ []) ↔ (contract 1 ≡ contract 2)
contract_differences_iff_example = contract_differences_iff (contract 1) (contract 2)
