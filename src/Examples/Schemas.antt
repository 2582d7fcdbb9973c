-- ===== src/Examples/Schemas.antt =====
-- The validation of documents and the bounds of the adapters, at concrete documents.
use benchplane.Base.{◌≡◌, ◌↔◌, refl, ok, some}
use benchplane.Schema.Experiment.{LlamaCppTarget, llama_cpp_model_identity}
use benchplane.Schema.Validate.{
  validate, validation_errors, common_errors, local_fake_errors, cpu_probe_errors, llama_cpp_errors,
  provider_errors, vllm_errors,
}
use benchplane.Schema.Validate.Accepted.{IsAccepted, validate_iff}
use benchplane.ChildSupervisor.{accepted_bytes}
use benchplane.CpuProbe
use benchplane.LlamaCpp
use benchplane.CpuProbe.Bounds.{probe_record_count_lem}
use benchplane.LlamaCpp.Bounds.{helper_record_count_lem}
use benchplane.Examples.Plans.{fake_experiment, probe_experiment, llama_experiment}

pub probe_accepted : validate probe_experiment ≡ ok tt
unfolding validate validation_errors common_errors local_fake_errors cpu_probe_errors
    llama_cpp_errors provider_errors vllm_errors
probe_accepted = refl

llama_accepted : validate llama_experiment ≡ ok tt
unfolding validate validation_errors common_errors local_fake_errors cpu_probe_errors
    llama_cpp_errors provider_errors vllm_errors
llama_accepted = refl

validate_iff_example : (validate fake_experiment ≡ ok tt) ↔ IsAccepted fake_experiment
validate_iff_example = validate_iff fake_experiment

probe_record_count_lem_example :
    (CpuProbe.expected_record_count (CpuProbe.config_of probe_experiment.spec 4 1000) ≡ ok 3)
    × (accepted_bytes (CpuProbe.protocol_of (CpuProbe.config_of probe_experiment.spec 4 1000) 3)
        ≡ some 1536)
probe_record_count_lem_example = probe_record_count_lem probe_experiment 4 1000 refl probe_accepted

helper_record_count_lem_example :
    (LlamaCpp.expected_record_count (LlamaCpp.config_of llama_experiment.spec LlamaCppTarget.cpu 4)
      ≡ ok 3)
    × (accepted_bytes
          (LlamaCpp.protocol_of (LlamaCpp.config_of llama_experiment.spec LlamaCppTarget.cpu 4) 3)
        ≡ some 49152)
helper_record_count_lem_example =
    helper_record_count_lem llama_experiment LlamaCppTarget.cpu llama_cpp_model_identity 4 refl
      llama_accepted
