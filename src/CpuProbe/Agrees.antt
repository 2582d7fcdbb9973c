-- ===== src/CpuProbe/Agrees.antt =====
-- The checks of crates/benchplane-core/src/cpu_probe.rs on a record, against those of the bundle
-- verifier in crates/benchplane-core/src/evidence.rs.
use benchplane.Base.{
  ℕ, ◌<◌, ◌≡◌, ◌↔◌, refl, String, true, false, not, Option, none, some, List, [], ◌∷◌, is_some_and,
  str_eq, eq_iff, u32_mod, ok, arith,
}
use native.Mathlib.Nat.{mod-eq_of_lt}
use benchplane.Execution.{is_empty}
use benchplane.Schema.Experiment.{ResolvedExperiment, RuntimeSpec, cpu_probe_generator_version}
use benchplane.Schema.Measurement.{MeasurementPhase, MeasurementRecord, phase_eq}
use benchplane.Evidence.Records.{
  expected_place as verifier_place, validate_runtime_contract, validate_measurement_record,
}
use benchplane.Evidence.Records.Fields.{FieldsMatch, Continues, aggregate_mismatch_iff}
use benchplane.CpuProbe.{config_of, expected_place, is_valid, validate_record}

pub expected_place_lem :
    (position warmups : ℕ)
    → position < u32_mod
    → expected_place position warmups ≡ verifier_place position warmups
unfolding expected_place verifier_place
expected_place_lem position warmups h = rw (mod-eq_of_lt h) refl

-- The generator of the records before, if any, is the probe's.
abbrev pub Agrees : Option String → Type 0
Agrees g = is_some_and g (λ v. not (str_eq v cpu_probe_generator_version)) ≡ false

is_empty_iff {ℓ} : {A : Type ℓ} (l : List A) → (is_empty l ≡ true) ↔ (l ≡ [])
is_empty_iff [] = ground arith
is_empty_iff (x ∷ l) = ground arith

is_valid_iff :
    (r : MeasurementRecord) (phase : MeasurementPhase) (index requests : ℕ)
    → (is_valid r phase index requests ≡ true)
      ↔ ((r.generator ≡ cpu_probe_generator_version) × FieldsMatch r phase index requests)
unfolding is_valid
is_valid_iff r phase index requests =
    let same = phase_eq r.phase phase in
    ground (arith, eq_iff r.generator cpu_probe_generator_version)

contract_iff :
    (r : MeasurementRecord) (requests tokens units : ℕ)
    → (validate_runtime_contract (RuntimeSpec.cpu_probe tokens units) r requests ≡ ok tt)
      ↔ ((r.generator ≡ cpu_probe_generator_version) × (r.request_observations ≡ []))
unfolding validate_runtime_contract
contract_iff r requests tokens units =
    ground
      (arith, eq_iff r.generator cpu_probe_generator_version, is_empty_iff r.request_observations)

Agrees-Continues :
    (g : Option String) (r : MeasurementRecord)
    → Agrees g
    → r.generator ≡ cpu_probe_generator_version
    → Continues g r
Agrees-Continues none r h e = refl
Agrees-Continues (some v) r h e =
    ground (arith, eq_iff v cpu_probe_generator_version, eq_iff v r.generator)

-- Under a plan for the CPU probe, at a position that a u32 holds and behind records of the probe:
-- the verifier accepts a record there exactly if the adapter accepts it and the record has no
-- request observations.
pub probe_record_iff :
    (plan : ResolvedExperiment) (tokens units position : ℕ) (g : Option String)
    (r : MeasurementRecord)
    → plan.experiment.spec.runtime ≡ RuntimeSpec.cpu_probe tokens units
    → position < u32_mod
    → Agrees g
    → let config = config_of plan.experiment.spec tokens units in
      (validate_measurement_record r position config.warmup_runs plan g ≡ ok tt)
      ↔ ((validate_record r position config ≡ ok tt) × (r.request_observations ≡ []))
unfolding validate_measurement_record validate_record config_of
probe_record_iff plan tokens units position g r runtime h agrees =
    let s = plan.experiment.spec in
    let place = verifier_place position s.measurement.warmup_runs in
    ground (
      arith,
      runtime,
      expected_place_lem position s.measurement.warmup_runs h,
      aggregate_mismatch_iff r place.0 place.1 s.workload.requests g,
      is_valid_iff r place.0 place.1 s.workload.requests,
      contract_iff r s.workload.requests tokens units,
      Agrees-Continues g r agrees,
    )
