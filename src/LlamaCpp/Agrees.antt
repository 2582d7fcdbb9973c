-- ===== src/LlamaCpp/Agrees.antt =====
-- The checks of crates/benchplane-core/src/llama_cpp.rs on a record, against those of the bundle
-- verifier in crates/benchplane-core/src/evidence.rs.
use benchplane.Base.{
  ℕ, ◌+◌, ◌<◌, ◌≡◌, ◌↔◌, refl, String, true, false, not, Option, none, some, List, [], ◌∷◌, length,
  is_some_and, str_eq, eq_iff, u32_mod, ok, arith,
}
use native.Mathlib.Nat.{mod-eq_of_lt}
use benchplane.Schema.Experiment.{
  ResolvedExperiment, RuntimeSpec, LlamaCppTarget, llama_cpp_generator_version,
}
use benchplane.Schema.Measurement.{
  MeasurementPhase, MeasurementRecord, RequestObservation, phase_eq,
}
use benchplane.Evidence.Records.{
  expected_place as verifier_place, observations_invalid, validate_llama_v2,
  validate_llama_v2_aggregate_consistency, validate_runtime_contract, validate_measurement_record,
}
use benchplane.Evidence.Records.Fields.{FieldsMatch, Continues, aggregate_mismatch_iff}
use benchplane.CpuProbe.Agrees.{expected_place_lem}
use benchplane.LlamaCpp.{config_of, observations_valid, is_valid, validate_record}

observations_iff :
    (position : ℕ) (os : List RequestObservation)
    → position + length os < u32_mod
    → (observations_valid position os ≡ true) ↔ (observations_invalid position os ≡ false)
unfolding observations_valid observations_invalid
observations_iff position [] h = ground arith
observations_iff position (o ∷ os) h =
    let small : position < u32_mod = omega arith in
    let rest = observations_valid (position + 1) os in
    ground (arith, mod-eq_of_lt small, observations_iff (position + 1) os (omega arith))

is_valid_iff :
    (r : MeasurementRecord) (phase : MeasurementPhase) (index requests : ℕ)
    → (is_valid r phase index requests ≡ true) ↔ (
        (r.generator ≡ llama_cpp_generator_version)
        × FieldsMatch r phase index requests
        × (length r.request_observations ≡ requests)
        × (observations_valid 0 r.request_observations ≡ true))
unfolding is_valid
is_valid_iff r phase index requests =
    let same = phase_eq r.phase phase in
    let valid = observations_valid 0 r.request_observations in
    ground (arith, eq_iff r.generator llama_cpp_generator_version)

contract_iff :
    (r : MeasurementRecord) (requests : ℕ) (target : LlamaCppTarget) (model : String) (tokens : ℕ)
    → r.generator ≡ llama_cpp_generator_version
    → requests < u32_mod
    → (validate_runtime_contract (RuntimeSpec.llama_cpp target model tokens) r requests ≡ ok tt) ↔ (
        (length r.request_observations ≡ requests)
        × (observations_valid 0 r.request_observations ≡ true)
        × (validate_llama_v2_aggregate_consistency r ≡ ok tt))
unfolding validate_runtime_contract validate_llama_v2
contract_iff r requests target model tokens e h = rw e (
    ground (
      arith,
      eq_iff llama_cpp_generator_version llama_cpp_generator_version,
      observations_iff 0 r.request_observations,
    ))

Agrees-Continues :
    (g : Option String) (r : MeasurementRecord)
    → is_some_and g (λ v. not (str_eq v llama_cpp_generator_version)) ≡ false
    → r.generator ≡ llama_cpp_generator_version
    → Continues g r
Agrees-Continues none r h e = refl
Agrees-Continues (some v) r h e =
    ground (arith, eq_iff v llama_cpp_generator_version, eq_iff v r.generator)

-- Under a plan for llama.cpp, whose requests a u32 holds, at a position that a u32 holds, behind
-- records of the current generator: the verifier accepts a record of this generator there exactly
-- if the adapter accepts it and its aggregates are consistent with its observations.
pub helper_record_iff :
    (plan : ResolvedExperiment) (target : LlamaCppTarget) (model : String) (tokens position : ℕ)
    (g : Option String) (r : MeasurementRecord)
    → plan.experiment.spec.runtime ≡ RuntimeSpec.llama_cpp target model tokens
    → plan.experiment.spec.workload.requests < u32_mod
    → position < u32_mod
    → is_some_and g (λ v. not (str_eq v llama_cpp_generator_version)) ≡ false
    → r.generator ≡ llama_cpp_generator_version
    → let config = config_of plan.experiment.spec target tokens in
      (validate_measurement_record r position config.warmup_runs plan g ≡ ok tt) ↔ (
        (validate_record r position config ≡ ok tt)
        × (validate_llama_v2_aggregate_consistency r ≡ ok tt))
unfolding validate_measurement_record validate_record config_of
helper_record_iff plan target model tokens position g r runtime small h agrees e =
    let s = plan.experiment.spec in
    let place = verifier_place position s.measurement.warmup_runs in
    ground (
      arith,
      runtime,
      expected_place_lem position s.measurement.warmup_runs h,
      aggregate_mismatch_iff r place.0 place.1 s.workload.requests g,
      is_valid_iff r place.0 place.1 s.workload.requests,
      contract_iff r s.workload.requests target model tokens e small,
      Agrees-Continues g r agrees e,
    )
