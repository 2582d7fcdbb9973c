-- ===== src/LlamaCpp/Bounds.antt =====
-- The bounds of crates/benchplane-core/src/llama_cpp.rs on documents that `validate` of
-- crates/benchplane-schema/src/experiment.rs accepts.
use benchplane.Base.{ℕ, zero, suc, String, ◌+◌, ◌*◌, ◌≤◌, ◌≡◌, some, subst, ok, arith}
use benchplane.Schema.Experiment.{Experiment, ExperimentSpec, RuntimeSpec, LlamaCppTarget}
use benchplane.Schema.Validate.{validate}
use benchplane.Schema.Validate.Accepted.{RuntimeIsAccepted, validate_iff}
use benchplane.ChildSupervisor.{accepted_bytes}
use benchplane.LlamaCpp.{config_of, expected_record_count, protocol_of, metadata_records}

observations_bound : (n tokens : ℕ) → 1 ≤ tokens → n * (96 + tokens) ≤ 8192 → n ≤ 84
observations_bound n zero h bound = absurd (omega arith)
observations_bound n (suc k) h bound = grind arith

count_lem :
    (s : ExperimentSpec) (target : LlamaCppTarget) (model : String) (tokens : ℕ)
    → RuntimeIsAccepted (RuntimeSpec.llama_cpp target model tokens) s
    → let n = s.measurement.warmup_runs + s.measurement.repetitions in
      let config = config_of s target tokens in
      (expected_record_count config ≡ ok n)
      × (accepted_bytes (protocol_of config n) ≡ some ((metadata_records target + n) * 16384))
unfolding expected_record_count config_of accepted_bytes protocol_of
count_lem s target model tokens h =
    let n = s.measurement.warmup_runs + s.measurement.repetitions in
    let few : n * s.workload.requests ≤ 84 =
      observations_bound (n * s.workload.requests) tokens (ground arith) (ground arith) in
    ground (arith, few)

-- For an accepted document with the runtime llamaCpp neither the adapter nor the supervisor refuses the helper's size: the
-- adapter expects all warmup and measured records, and these fit the output limit together with
-- the metadata record of an NVIDIA target.
pub helper_record_count_lem :
    (e : Experiment) (target : LlamaCppTarget) (model : String) (tokens : ℕ)
    → e.spec.runtime ≡ RuntimeSpec.llama_cpp target model tokens
    → validate e ≡ ok tt
    → let config = config_of e.spec target tokens in
      let n = e.spec.measurement.warmup_runs + e.spec.measurement.repetitions in
      (expected_record_count config ≡ ok n)
      × (accepted_bytes (protocol_of config n) ≡ some ((metadata_records target + n) * 16384))
helper_record_count_lem e target model tokens runtime accepted =
    count_lem e.spec target model tokens
      (subst (λ r. RuntimeIsAccepted r e.spec) runtime ((validate_iff e).0 accepted).runtime)
