-- ===== src/CpuProbe/Verifies.antt =====
-- The records that the supervisor takes from the CPU probe (crates/benchplane-core/src/cpu_probe.rs)
-- against the verifier of a bundle (crates/benchplane-core/src/evidence.rs).
use benchplane.Base.{
  ℕ, ◌+◌, ◌<◌, ◌≡◌, refl, String, Option, none, some, List, [], ◌∷◌, length, All, u32_mod, ok,
  eq_iff, arith,
}
use benchplane.Schema.Experiment.{
  ResolvedExperiment, RuntimeSpec, ProviderSpec, cpu_probe_generator_version,
}
use benchplane.Schema.Measurement.{MeasurementRecord}
use benchplane.Evidence.Records.{expected_measurement_counts}
use benchplane.Evidence.Measurements.{first_generator}
use benchplane.Evidence.Measurements.Sequence.{ValidFrom}
use benchplane.ChildSupervisor.Protocol.{ChildExecution}
use benchplane.ChildSupervisor.Outcome.{IsOutcome, success, failure}
use benchplane.ChildSupervisor.Invariant.{ValidatedFrom}
use benchplane.CpuProbe.{
  CpuProbeConfig, protocol_of, into_execution_output, config_of, validate_record, is_valid,
}
use benchplane.CpuProbe.Agrees.{Agrees, probe_record_iff}

module _ (plan : ResolvedExperiment) (tokens units : ℕ)
    (runtime : plan.experiment.spec.runtime ≡ RuntimeSpec.cpu_probe tokens units) where
  abbrev config : CpuProbeConfig
  config = config_of plan.experiment.spec tokens units

  generator_lem :
      (r : MeasurementRecord) (position : ℕ)
      → validate_record r position config ≡ ok tt
      → r.generator ≡ cpu_probe_generator_version
  unfolding validate_record is_valid
  generator_lem r position h = ground (arith, eq_iff r.generator cpu_probe_generator_version)

  first_generator-Agrees :
      (g : Option String) (r : MeasurementRecord)
      → Agrees g
      → r.generator ≡ cpu_probe_generator_version
      → Agrees (first_generator g r.generator)
  first_generator-Agrees none r h e = ground (arith, eq_iff r.generator cpu_probe_generator_version)
  first_generator-Agrees (some v) r h e = h

  records-ValidFrom :
      (position : ℕ) (g : Option String) (rs : List MeasurementRecord)
      → Agrees g
      → position + length rs < u32_mod
      → ValidatedFrom (λ r i. validate_record r i config) position rs
      → All (λ r. r.request_observations ≡ []) rs
      → ValidFrom plan plan.experiment.spec.measurement.warmup_runs position g rs
  unfolding config_of
  records-ValidFrom position g [] agrees fits h bare = tt
  records-ValidFrom position g (r ∷ rs) agrees fits h bare = (
    (probe_record_iff plan tokens units position g r runtime (omega arith) agrees).1 (h.0, bare.0),
    records-ValidFrom (position + 1) (first_generator g r.generator) rs
        (first_generator-Agrees g r agrees (generator_lem r position h.0)) (omega arith) h.1 bare.1,
  )

-- Of an outcome of the supervisor for the probe, under a plan with the provider local and the
-- runtime cpuProbe, whose records in number fit a u32: if the outcome's records have no request
-- observations, the output that the adapter makes has as many records as
-- the verifier expects of its terminal state, each valid at its place. This is so on success as
-- well as on failure.
pub into_execution_output-ValidFrom :
    (plan : ResolvedExperiment) (tokens units : ℕ) (out : ChildExecution)
    → plan.experiment.spec.provider ≡ ProviderSpec.local
    → plan.experiment.spec.runtime ≡ RuntimeSpec.cpu_probe tokens units
    → let config = config_of plan.experiment.spec tokens units in
      let m = plan.experiment.spec.measurement in
      m.warmup_runs + m.repetitions < u32_mod
      → IsOutcome
          (λ r i. validate_record r i config)
          (protocol_of config (m.warmup_runs + m.repetitions))
          out
      → All (λ r. r.request_observations ≡ []) out.measurements
      → let output = into_execution_output out in
        (warmups measured : ℕ) × (expected_measurement_counts plan output.terminal_state
          ≡ ok (warmups, measured))
        × (length output.measurements ≡ warmups + measured)
        × ValidFrom plan warmups 0 none output.measurements
unfolding into_execution_output expected_measurement_counts protocol_of
into_execution_output-ValidFrom plan tokens units out provider runtime fits
      (success resources fine _ _ complete checked) bare =
    (
      plan.experiment.spec.measurement.warmup_runs,
      plan.experiment.spec.measurement.repetitions,
      rw (provider, runtime, fine) refl,
      complete,
      records-ValidFrom plan tokens units runtime 0 none out.measurements refl (omega arith) checked
          bare,
    )
into_execution_output-ValidFrom plan tokens units out provider runtime fits
      (failure f failed _ empty) bare =
    (0, 0, rw (provider, runtime, failed) refl, rw empty refl, rw empty tt)
