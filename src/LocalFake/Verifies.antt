-- ===== src/LocalFake/Verifies.antt =====
-- The measurements of crates/benchplane-core/src/local_fake.rs against the verifier of
-- crates/benchplane-core/src/evidence.rs, for every scenario.
use benchplane.Base.{
  ℕ, zero, suc, ◌+◌, ◌<◌, ◌≡◌, refl, sym, subst, ap, ◌∙◌, String, Option, none, some, List, ◌++◌,
  length, length-append, ok, arith,
}
use benchplane.Schema.Experiment.{
  ResolvedExperiment, RuntimeSpec, ProviderSpec, LocalFakeScenario, success,
  insufficient_measurements, runtime_failure, interrupted, local_fake_generator_version,
}
use benchplane.Schema.Measurement.{MeasurementPhase, MeasurementRecord}
use benchplane.Schema.Evidence.{run_state_eq}
use benchplane.Evidence.Records.{expected_measurement_counts, local_fake_counts, expected_place}
use benchplane.Evidence.Measurements.{first_generator}
use benchplane.Evidence.Measurements.Sequence.{ValidFrom, ValidFrom-append, generator_after}
use benchplane.LocalFake.{measurement, emit, execute, measured_count, outcome}
use benchplane.LocalFake.Ranges.{Agrees, measurement-valid}

first_generator-Agrees :
    (g : Option String) → Agrees g → Agrees (first_generator g local_fake_generator_version)
first_generator-Agrees none h = ground arith
first_generator-Agrees (some v) h = h

-- The place of each of so many records from a position on is in the phase, in turn.
InPhase : MeasurementPhase → ℕ → ℕ → ℕ → ℕ → Type 0
InPhase phase first count position warmups =
    (i at index : ℕ)
    → i < count
    → at ≡ position + i
    → index ≡ first + i
    → expected_place at warmups ≡ (phase, index)

outcome-measurements :
    (scenario : LocalFakeScenario) (records : List MeasurementRecord)
    → (outcome scenario records).measurements ≡ records
unfolding outcome
outcome-measurements success records = refl
outcome-measurements insufficient_measurements records = refl
outcome-measurements runtime_failure records = refl
outcome-measurements interrupted records = refl

outcome-counts :
    (plan : ResolvedExperiment) (seed : ℕ) (scenario : LocalFakeScenario)
    (records : List MeasurementRecord)
    → plan.experiment.spec.provider ≡ ProviderSpec.local_fake
    → plan.experiment.spec.runtime ≡ RuntimeSpec.local_fake seed scenario
    → let m = plan.experiment.spec.measurement in
      expected_measurement_counts plan (outcome scenario records).terminal_state
      ≡ ok (m.warmup_runs, measured_count scenario m.repetitions)
unfolding outcome expected_measurement_counts measured_count local_fake_counts run_state_eq
outcome-counts plan seed success records provider runtime = rw (provider, runtime) refl
outcome-counts plan seed insufficient_measurements records provider runtime =
    rw (provider, runtime) refl
outcome-counts plan seed runtime_failure records provider runtime = rw (provider, runtime) refl
outcome-counts plan seed interrupted records provider runtime = rw (provider, runtime) refl

-- the warmup records come first, the measured ones after
warmup-InPhase : (warmups : ℕ) → InPhase MeasurementPhase.warmup 1 warmups 0 warmups
unfolding InPhase expected_place
warmup-InPhase warmups i at index h here there = ground arith

measured-InPhase : (warmups count : ℕ) → InPhase MeasurementPhase.measured 1 count warmups warmups
unfolding InPhase expected_place
measured-InPhase warmups count i at index h here there = ground arith

module _ (sha256 : List ℕ → List ℕ) (plan : ResolvedExperiment) (seed : ℕ)
    (scenario : LocalFakeScenario) where
  length-emit :
      (phase : MeasurementPhase) (first count : ℕ)
      → length (emit sha256 plan seed phase first count) ≡ count
  unfolding emit
  length-emit phase first zero = refl
  length-emit phase first (suc count) = omega (arith, length-emit phase (first + 1) count)

  emit-Agrees :
      (phase : MeasurementPhase) (first count : ℕ) (g : Option String)
      → Agrees g
      → Agrees (generator_after g (emit sha256 plan seed phase first count))
  unfolding emit measurement
  emit-Agrees phase first zero g h = h
  emit-Agrees phase first (suc count) g h =
      emit-Agrees phase (first + 1) count (first_generator g local_fake_generator_version)
        (first_generator-Agrees g h)

  emit-ValidFrom :
      (warmups position : ℕ) (phase : MeasurementPhase) (first count : ℕ) (g : Option String)
      → plan.experiment.spec.runtime ≡ RuntimeSpec.local_fake seed scenario
      → InPhase phase first count position warmups
      → Agrees g
      → ValidFrom plan warmups position g (emit sha256 plan seed phase first count)
  unfolding emit measurement InPhase
  emit-ValidFrom warmups position phase first zero g runtime places agrees = tt
  emit-ValidFrom warmups position phase first (suc count) g runtime places agrees = (
    measurement-valid sha256 plan seed scenario warmups position phase first g runtime
        (places 0 position first (omega arith) (omega arith) (omega arith)) agrees,
    emit-ValidFrom warmups (position + 1) phase (first + 1) count
        (first_generator g local_fake_generator_version) runtime
        (λ i at index h here there.
          places (suc i) at index (omega arith) (omega arith) (omega arith))
        (first_generator-Agrees g agrees),
  )

  -- Under a plan with provider and runtime localFake, for its seed and scenario and any hash: the
  -- verifier expects of the terminal state of `execute` the plan's warmups and the scenario's
  -- measured records, the output has as many records, and each is valid at its place.
  pub execute-ValidFrom :
      plan.experiment.spec.provider ≡ ProviderSpec.local_fake
      → plan.experiment.spec.runtime ≡ RuntimeSpec.local_fake seed scenario
      → let output = execute sha256 plan seed scenario in
        let m = plan.experiment.spec.measurement in
        let measured = measured_count scenario m.repetitions in
        (expected_measurement_counts plan output.terminal_state ≡ ok (m.warmup_runs, measured))
        × (length output.measurements ≡ m.warmup_runs + measured)
        × ValidFrom plan m.warmup_runs 0 none output.measurements
  unfolding execute
  execute-ValidFrom provider runtime =
      let m = plan.experiment.spec.measurement in
      let warm = emit sha256 plan seed MeasurementPhase.warmup 1 m.warmup_runs in
      let count = measured_count scenario m.repetitions in
      let rest = emit sha256 plan seed MeasurementPhase.measured 1 count in
      let whole = outcome-measurements scenario (warm ++ rest) in
      let warm_size = length-emit MeasurementPhase.warmup 1 m.warmup_runs in
      let rest_size = length-emit MeasurementPhase.measured 1 count in
      (
        outcome-counts plan seed scenario (warm ++ rest) provider runtime,
        ap length whole ∙ omega (arith, length-append warm rest, warm_size, rest_size),
        subst (ValidFrom plan m.warmup_runs 0 none) (sym whole) (
            ValidFrom-append plan m.warmup_runs 0 none warm rest
              (emit-ValidFrom m.warmup_runs 0 MeasurementPhase.warmup 1 m.warmup_runs none runtime
                (warmup-InPhase m.warmup_runs) refl)
              (emit-ValidFrom m.warmup_runs (0 + length warm) MeasurementPhase.measured 1 count
                (generator_after none warm) runtime
                (subst (λ n. InPhase MeasurementPhase.measured 1 count n m.warmup_runs)
                  (omega (arith, warm_size)) (measured-InPhase m.warmup_runs count))
                (emit-Agrees MeasurementPhase.warmup 1 m.warmup_runs none refl))),
      )
