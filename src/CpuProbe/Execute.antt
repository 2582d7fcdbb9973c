-- ===== src/CpuProbe/Execute.antt =====
-- `execute` of crates/benchplane-core/src/cpu_probe.rs on top of the supervisor, and its output
-- against the verifier of crates/benchplane-core/src/evidence.rs.
use benchplane.Base.{
  ℕ, ◌+◌, ◌≡◌, subst, sym, String, Option, none, some, List, [], length, All, Result, ok, err,
  arith, Option-cases, inl, inr,
}
use benchplane.Schema.Experiment.{ResolvedExperiment, RuntimeSpec, ProviderSpec}
use benchplane.Schema.Evidence.{ProcessResources}
use benchplane.Schema.Measurement.{MeasurementRecord}
use benchplane.Schema.Validate.{validate}
use benchplane.Schema.Validate.Accepted.{RuntimeIsAccepted, validate_iff}
use benchplane.Execution.{ExecutionOutput}
use benchplane.Evidence.Records.{expected_measurement_counts}
use benchplane.Evidence.Measurements.Sequence.{ValidFrom}
use benchplane.ChildSupervisor
use benchplane.ChildSupervisor.Protocol.{ChildExecution, failed}
use benchplane.ChildSupervisor.Supervise.{Round}
use benchplane.ChildSupervisor.Outcome.{execute-IsOutcome}
use benchplane.CpuProbe.{
  CpuProbeConfig, config_of, expected_record_count, protocol_of, validate_record,
  into_execution_output,
}
use benchplane.CpuProbe.Bounds.{probe_record_count_lem}
use benchplane.CpuProbe.Verifies.{into_execution_output-ValidFrom}

-- The parameters are those of the supervisor's `execute`; the helper's arguments are its own.
module _ (shown : List ℕ → String) (decode : List ℕ → Result MeasurementRecord String)
    (spawned : Result (Unit {0}) String) (rounds : List Round)
    (reaped : Result ProcessResources String) (stderr : List ℕ) where
  unfoldable pub execute_command : CpuProbeConfig → Option ChildExecution
  execute_command config = elim (expected_record_count config) [
    | err f ↦ some (failed f none)
    | ok count ↦
        ChildSupervisor.execute shown decode (λ r i. validate_record r i config)
          (protocol_of config count) spawned rounds reaped stderr
  ]

  unfoldable pub execute : CpuProbeConfig → Option ExecutionOutput
  unfolding execute_command
  execute config = elim (execute_command config) [
    | none ↦ none
    | some c ↦ some (into_execution_output c)
  ]

  -- A plan with provider local and runtime cpuProbe whose document `validate` accepts, whatever
  -- the helper and the operating system do: if the execution ends and its records have no
  -- request observations, the output has as many records as the verifier expects of its terminal
  -- state, each valid at its place.
  pub execute_probe-ValidFrom :
      (plan : ResolvedExperiment) (tokens units : ℕ) (output : ExecutionOutput)
      → plan.experiment.spec.provider ≡ ProviderSpec.local
      → plan.experiment.spec.runtime ≡ RuntimeSpec.cpu_probe tokens units
      → validate plan.experiment ≡ ok tt
      → execute (config_of plan.experiment.spec tokens units) ≡ some output
      → All (λ r. r.request_observations ≡ []) output.measurements
      → (warmups measured : ℕ) × (expected_measurement_counts plan output.terminal_state
          ≡ ok (warmups, measured))
        × (length output.measurements ≡ warmups + measured)
        × ValidFrom plan warmups 0 none output.measurements
  unfolding execute execute_command
  execute_probe-ValidFrom plan tokens units output provider runtime accepted ended bare =
      let config = config_of plan.experiment.spec tokens units in
      let m = plan.experiment.spec.measurement in
      let counted = (probe_record_count_lem plan.experiment tokens units runtime accepted).0 in
      let limits : RuntimeIsAccepted (RuntimeSpec.cpu_probe tokens units) plan.experiment.spec =
        subst (λ r. RuntimeIsAccepted r plan.experiment.spec) runtime
          ((validate_iff plan.experiment).0 accepted).runtime in
      let protocol = protocol_of config (m.warmup_runs + m.repetitions) in
      let child =
        ChildSupervisor.execute shown decode (λ r i. validate_record r i config) protocol spawned
          rounds reaped stderr in
      elim (Option-cases child) [
        | inl running ↦ absurd (ground (arith, counted))
        | inr (c, supervised) ↦
            let made : into_execution_output c ≡ output = ground (arith, counted) in
            subst
              (λ o.
                (warmups measured : ℕ) × (expected_measurement_counts plan o.terminal_state
                  ≡ ok (warmups, measured))
                × (length o.measurements ≡ warmups + measured)
                × ValidFrom plan warmups 0 none o.measurements)
              made
              (into_execution_output-ValidFrom plan tokens units c provider runtime
                (omega (arith, limits))
                (execute-IsOutcome shown decode (λ r i. validate_record r i config) protocol spawned
                  rounds reaped stderr c supervised)
                (unfold into_execution_output in
                  subst (λ o. All (λ r. r.request_observations ≡ []) o.measurements) (sym made)
                    bare))
      ]
