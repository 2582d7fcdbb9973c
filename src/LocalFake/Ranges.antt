-- ===== src/LocalFake/Ranges.antt =====
-- The records that crates/benchplane-core/src/local_fake.rs makes, one by one: their values and
-- their place in the sequence.
use benchplane.Base.{
  ℕ, ◌+◌, ◌≤◌, ◌<◌, ◌≡◌, refl, String, false, not, Option, List, take, from_be_bytes, is_some_and,
  str_eq, ok, arith,
}
use native.Mathlib.Nat.{mod-lt}
use benchplane.Schema.Experiment.{
  ResolvedExperiment, RuntimeSpec, LocalFakeScenario, local_fake_generator_version,
}
use benchplane.Schema.Measurement.{MeasurementPhase, phase_eq}
use benchplane.Evidence.Records.{
  expected_place, aggregate_mismatch, validate_runtime_contract, validate_measurement_record,
}
use benchplane.LocalFake.{phase_tag, components, derive_value, measurement}
use benchplane.LocalFake.Framing.{frame}

-- no generator yet, or that of the local fake
abbrev pub Agrees : Option String → Type 0
Agrees g = is_some_and g (λ v. not (str_eq v local_fake_generator_version)) ≡ false

module _ (sha256 : List ℕ → List ℕ) where
  -- A derived value lies in the span above its minimum.
  pub derive_value-bounds :
      (plan_digest : String) (seed : ℕ) (phase : String) (repetition_index sample_index : ℕ)
      (metric_tag : String) (minimum span : ℕ)
      → 0 < span
      → let v =
          derive_value sha256 plan_digest seed phase repetition_index sample_index metric_tag
            minimum span in
        (minimum ≤ v) × (v < minimum + span)
  unfolding derive_value
  derive_value-bounds plan_digest seed phase repetition_index sample_index metric_tag minimum span
        h =
      omega (
        arith,
        mod-lt
            (from_be_bytes 0 (
              take 8 (
                sha256 (
                  frame
                    (components plan_digest seed phase repetition_index sample_index metric_tag)))))
            h,
      )

  measurement-fits :
      (plan : ResolvedExperiment) (seed : ℕ) (phase : MeasurementPhase) (index : ℕ)
      (g : Option String)
      → Agrees g
      → aggregate_mismatch
          (measurement sha256 plan seed phase index 1)
          phase
          index
          plan.experiment.spec.workload.requests
          g
        ≡ false
  unfolding aggregate_mismatch measurement phase_eq
  measurement-fits plan seed phase index g agrees =
      let bounds = derive_value-bounds plan.resolved_plan_digest seed (phase_tag phase) index 1 in
      ground (
        arith,
        bounds "latencyMicros" 10000 40001 (omega arith),
        bounds "timeToFirstTokenMicros" 1000 9001 (omega arith),
        bounds "throughputMilliRequestsPerSecond" 10000 90001 (omega arith),
      )

  measurement-supported :
      (plan : ResolvedExperiment) (seed : ℕ) (scenario : LocalFakeScenario)
      (phase : MeasurementPhase) (index requests : ℕ)
      → validate_runtime_contract
          (RuntimeSpec.local_fake seed scenario)
          (measurement sha256 plan seed phase index 1)
          requests
        ≡ ok tt
  unfolding validate_runtime_contract measurement
  measurement-supported plan seed scenario phase index requests = ground arith

  pub measurement-valid :
      (plan : ResolvedExperiment) (seed : ℕ) (scenario : LocalFakeScenario) (warmups position : ℕ)
      (phase : MeasurementPhase) (index : ℕ) (g : Option String)
      → plan.experiment.spec.runtime ≡ RuntimeSpec.local_fake seed scenario
      → expected_place position warmups ≡ (phase, index)
      → Agrees g
      → validate_measurement_record
          (measurement sha256 plan seed phase index 1)
          position
          warmups
          plan
          g
        ≡ ok tt
  unfolding validate_measurement_record
  measurement-valid plan seed scenario warmups position phase index g runtime place agrees =
      simp
        (
          place,
          runtime,
          measurement-fits plan seed phase index g agrees,
          measurement-supported plan seed scenario phase index
              plan.experiment.spec.workload.requests,
          validate_measurement_record,
        )
        refl
