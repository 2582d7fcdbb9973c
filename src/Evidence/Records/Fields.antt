-- ===== src/Evidence/Records/Fields.antt =====
-- The aggregate fields of a record that `validate_measurement_record` accepts
-- (crates/benchplane-core/src/evidence.rs), as plain equations and orders.
use benchplane.Base.{
  ℕ, ◌≤◌, ◌<◌, ◌≡◌, ◌↔◌, String, true, false, not, Option, is_some_and, str_eq, arith,
}
use benchplane.Schema.Measurement.{MeasurementPhase, MeasurementRecord, phase_eq}
use benchplane.Evidence.Records.{aggregate_mismatch}

pub record FieldsMatch (r : MeasurementRecord) (phase : MeasurementPhase) (index requests : ℕ)
    : Type 0 where
  pub attempt : r.attempt_number ≡ 1
  pub same_phase : phase_eq r.phase phase ≡ true
  pub same_index : r.repetition_index ≡ index
  pub sample : r.sample_index ≡ 1
  pub latency : 0 < r.latency_micros
  pub first_token : 0 < r.time_to_first_token_micros
  pub ordered : r.time_to_first_token_micros ≤ r.latency_micros
  pub throughput : 0 < r.throughput_milli_requests_per_second
  pub successes : r.successful_requests ≡ requests
  pub failures : r.failed_requests ≡ 0

-- The generators of all the records before are the record's.
abbrev pub Continues : Option String → MeasurementRecord → Type 0
Continues g r = is_some_and g (λ v. not (str_eq v r.generator)) ≡ false

pub aggregate_mismatch_iff :
    (r : MeasurementRecord) (phase : MeasurementPhase) (index requests : ℕ) (g : Option String)
    → (aggregate_mismatch r phase index requests g ≡ false)
      ↔ (FieldsMatch r phase index requests × Continues g r)
unfolding aggregate_mismatch
aggregate_mismatch_iff r phase index requests g =
    let seen = is_some_and g (λ v. not (str_eq v r.generator)) in
    let same = phase_eq r.phase phase in ground arith
