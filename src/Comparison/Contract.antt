-- ===== src/Comparison/Contract.antt =====
-- `eligible_contract` and `contract_differences` of crates/benchplane-core/src/comparison.rs.
use benchplane.Base.{
  ℕ, String, Bool, not, ◌||◌, Option, none, some, List, [], ◌∷◌, ◌++◌, any, ◌==◌, str_eq,
  if◌then◌else◌, Result, ok, err, fail_if, ◌>>=◌, ◌>>◌,
}
use benchplane.Schema.Experiment.{
  ProviderSpec, RuntimeSpec, LlamaCppTarget, llama_cpp_generator_version,
}
use benchplane.Schema.Equality.{target_eq}
use benchplane.Schema.Evidence.{
  RunState, ValidityStatus, AttemptProvenance, RuntimeProvenance, run_state_eq,
}
use benchplane.Schema.Measurement.{LlamaMeasurementContract, MeasurementRecord}
use benchplane.Evidence.Error.{EvidenceError}
use benchplane.Evidence.Reports.{validity_eq}
use benchplane.Evidence.Provenance.{device_eq}
use benchplane.Evidence.Consistency.{VerifiedEvidenceBundle}

pub data ComparisonError : Type 0 where
  -- role, source
  invalid_evidence : String → EvidenceError → ComparisonError
  -- role, reason
  ineligible : String → String → ComparisonError
  same_run : ComparisonError

-- the `match` on provider and runtime: target, model, output tokens
abbrev llama_runtime :
    String → ProviderSpec → RuntimeSpec → Result (LlamaCppTarget × String × ℕ) ComparisonError
llama_runtime role ProviderSpec.local (RuntimeSpec.llama_cpp target model tokens) =
    ok (target, model, tokens)
llama_runtime role _ _ = err (ineligible role "requires the local llamaCpp runtime")

abbrev provenance_of : String → Option AttemptProvenance → Result RuntimeProvenance ComparisonError
provenance_of role none = err (ineligible role "requires attempt provenance")
provenance_of role (some p) = ok p.software.runtime

abbrev contract_of :
    String
    → VerifiedEvidenceBundle
    → LlamaCppTarget
    → String
    → ℕ
    → RuntimeProvenance
    → Result LlamaMeasurementContract ComparisonError
contract_of role bundle target model tokens
      (RuntimeProvenance.llama_cpp generator engine provenance_model backend) =
    if not (str_eq generator llama_cpp_generator_version)
    then err (ineligible role "requires current llamaCpp v2 provenance")
    else ok (record {
      provider = "local";
      runtime = "llamaCpp";
      target = target;
      generator = generator;
      model = model;
      model_sha256 = provenance_model.sha256;
      engine_name = engine.name;
      engine_version = engine.version;
      backend = backend.identity;
      device_class = backend.device_class;
      workload_profile = bundle.plan.experiment.spec.workload.profile;
      output_tokens = tokens;
      requests_per_repetition = bundle.plan.experiment.spec.workload.requests;
      concurrency = bundle.plan.experiment.spec.workload.concurrency;
      warmup_runs = bundle.plan.experiment.spec.measurement.warmup_runs;
      measured_repetitions = bundle.plan.experiment.spec.measurement.repetitions;
    })
contract_of role bundle target model tokens _ =
    err (ineligible role "requires llamaCpp attempt provenance")

unfoldable pub eligible_contract :
    String → VerifiedEvidenceBundle → Result LlamaMeasurementContract ComparisonError
eligible_contract role bundle = do
  fail_if
      (not (run_state_eq bundle.manifest.run_status RunState.succeeded)
        || not (validity_eq bundle.manifest.validity_status ValidityStatus.valid))
      (ineligible role "requires a successful run with valid measurements")
  (target, model, tokens) ←
      llama_runtime role bundle.plan.experiment.spec.provider bundle.plan.experiment.spec.runtime
  fail_if
      (any (λ (r : MeasurementRecord). not (str_eq r.generator llama_cpp_generator_version))
        bundle.measurements)
      (ineligible role
        "requires current request-level benchplane-llama-cpp-smollm2/v2 measurements")
  runtime ← provenance_of role bundle.provenance
  contract_of role bundle target model tokens runtime

-- one use of the macro `compare!`
abbrev pub difference : Bool → String → List String
difference same name = if same then [] else name ∷ []

unfoldable pub contract_differences :
    LlamaMeasurementContract → LlamaMeasurementContract → List String
unfolding target_eq device_eq
contract_differences a b =
    difference (str_eq a.provider b.provider) "provider"
    ++ difference (str_eq a.runtime b.runtime) "runtime"
    ++ difference (target_eq a.target b.target) "target"
    ++ difference (str_eq a.generator b.generator) "generator"
    ++ difference (str_eq a.model b.model) "model"
    ++ difference (str_eq a.model_sha256 b.model_sha256) "modelSha256"
    ++ difference (str_eq a.engine_name b.engine_name) "engineName"
    ++ difference (str_eq a.engine_version b.engine_version) "engineVersion"
    ++ difference (str_eq a.backend b.backend) "backend"
    ++ difference (device_eq a.device_class b.device_class) "deviceClass"
    ++ difference (str_eq a.workload_profile b.workload_profile) "workloadProfile"
    ++ difference (a.output_tokens == b.output_tokens) "outputTokens"
    ++ difference (a.requests_per_repetition == b.requests_per_repetition) "requestsPerRepetition"
    ++ difference (a.concurrency == b.concurrency) "concurrency"
    ++ difference (a.warmup_runs == b.warmup_runs) "warmupRuns"
    ++ difference (a.measured_repetitions == b.measured_repetitions) "measuredRepetitions"
