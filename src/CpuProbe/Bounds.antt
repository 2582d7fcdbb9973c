-- ===== src/CpuProbe/Bounds.antt =====
-- The bounds of crates/benchplane-core/src/cpu_probe.rs on documents that `validate` of
-- crates/benchplane-schema/src/experiment.rs accepts.
use benchplane.Base.{ℕ, ◌+◌, ◌*◌, ◌≡◌, some, subst, ok, arith}
use benchplane.Schema.Experiment.{Experiment, ExperimentSpec, RuntimeSpec}
use benchplane.Schema.Validate.{validate}
use benchplane.Schema.Validate.Accepted.{RuntimeIsAccepted, validate_iff}
use benchplane.ChildSupervisor.{accepted_bytes}
use benchplane.CpuProbe.{config_of, expected_record_count, protocol_of}

count_lem :
    (s : ExperimentSpec) (tokens units : ℕ)
    → RuntimeIsAccepted (RuntimeSpec.cpu_probe tokens units) s
    → let n = s.measurement.warmup_runs + s.measurement.repetitions in
      (expected_record_count (config_of s tokens units) ≡ ok n)
      × (accepted_bytes (protocol_of (config_of s tokens units) n) ≡ some (n * 512))
unfolding expected_record_count config_of accepted_bytes protocol_of
count_lem s tokens units h = ground arith

-- For an accepted document with the runtime cpuProbe neither the adapter nor the supervisor refuses the probe's size: the
-- adapter expects all warmup and measured records, and they fit the output limit.
pub probe_record_count_lem :
    (e : Experiment) (tokens units : ℕ)
    → e.spec.runtime ≡ RuntimeSpec.cpu_probe tokens units
    → validate e ≡ ok tt
    → let config = config_of e.spec tokens units in
      let n = e.spec.measurement.warmup_runs + e.spec.measurement.repetitions in
      (expected_record_count config ≡ ok n)
      × (accepted_bytes (protocol_of config n) ≡ some (n * 512))
probe_record_count_lem e tokens units runtime accepted =
    count_lem e.spec tokens units
      (subst (λ r. RuntimeIsAccepted r e.spec) runtime ((validate_iff e).0 accepted).runtime)
