-- ===== src/Evidence/Reports/Consistent.antt =====
-- The reports that crates/benchplane-core/src/execution.rs computes for a run, against the checks of
-- crates/benchplane-core/src/evidence.rs on them.
use benchplane.Base.{
  map, ℕ, ◌+◌, ◌-◌, ◌%◌, ◌<◌, ◌≡◌, refl, sym, ap, ◌∙◌, String, true, Option, none, some, List, [],
  ◌∷◌, length, leb, eq_iff, u32_mod, ok, arith, ◌≢◌, Option-cases, inl, inr,
}
use benchplane.Run.{manifest_of}
use mathlib.Core.Option
use native.Mathlib.Nat.{mod-eq_of_lt}
use benchplane.Schema.Experiment.{ResolvedExperiment}
use benchplane.Schema.Evidence.{RunState, ValidityStatus, run_state_eq, is_terminal}
use benchplane.Schema.Measurement.{
  ValidityResult, RunSummary, ValidityReason, LatencySummary, MeasurementRecord, MeasurementPhase,
  phase_eq,
}
use benchplane.Execution.{
  ExecutionOutput, is_measured, measured_records, observed_samples, validity_of, evaluate_validity,
  summarize, statistics, summary_of,
}
use benchplane.Execution.Mean.{describe_micros_total}
use benchplane.Evidence.Records.{expected_place, validate_measurement_record}
use benchplane.Evidence.Records.Fields.{FieldsMatch, aggregate_mismatch_iff}
use benchplane.Evidence.Measurements.{MeasurementValidation, first_generator}
use benchplane.Evidence.Measurements.Sequence.{ValidFrom}
use benchplane.Evidence.Reports.{
  validity_eq, latency_eq, count_eq, expected_validity, check_validity, expected_statistics,
  check_summary, compare_summary,
}

phase_lem :
    (plan : ResolvedExperiment) (warmups position : ℕ) (g : Option String) (r : MeasurementRecord)
    → validate_measurement_record r position warmups plan g ≡ ok tt
    → phase_eq r.phase (expected_place position warmups).0 ≡ true
unfolding validate_measurement_record
phase_lem plan warmups position g r h =
    let place = expected_place position warmups in
    let requests = plan.experiment.spec.workload.requests in
    let fits : FieldsMatch r place.0 place.1 requests =
      ((aggregate_mismatch_iff r place.0 place.1 requests g).0 (ground arith)).0 in
    fits.same_phase

is_measured_lem :
    (phase : MeasurementPhase) (position warmups : ℕ)
    → phase_eq phase (expected_place position warmups).0 ≡ true
    → is_measured phase ≡ leb warmups position
unfolding phase_eq expected_place
is_measured_lem MeasurementPhase.warmup position warmups h = ground arith
is_measured_lem MeasurementPhase.measured position warmups h = ground arith

measured_lem :
    (plan : ResolvedExperiment) (warmups position : ℕ) (g : Option String)
    (rs : List MeasurementRecord)
    → ValidFrom plan warmups position g rs
    → length (measured_records rs) ≡ position + length rs - warmups - (position - warmups)
unfolding measured_records
measured_lem plan warmups position g [] h = ground arith
measured_lem plan warmups position g (r ∷ rs) h = ground (
  arith,
  is_measured_lem r.phase position warmups (phase_lem plan warmups position g r h.0),
  measured_lem plan warmups (position + 1) (first_generator g r.generator) rs h.1,
)

validity_eq_refl : (s : ValidityStatus) → validity_eq s s ≡ true
unfolding validity_eq
validity_eq_refl ValidityStatus.valid = refl
validity_eq_refl ValidityStatus.invalid = refl
validity_eq_refl ValidityStatus.indeterminate = refl

run_state_eq_refl : (s : RunState) → run_state_eq s s ≡ true
unfolding run_state_eq
run_state_eq_refl RunState.created = refl
run_state_eq_refl RunState.preparing = refl
run_state_eq_refl RunState.running = refl
run_state_eq_refl RunState.collecting = refl
run_state_eq_refl RunState.finalizing = refl
run_state_eq_refl RunState.succeeded = refl
run_state_eq_refl RunState.failed = refl
run_state_eq_refl RunState.interrupted = refl

latency_eq_refl : (l : Option LatencySummary) → latency_eq l l ≡ true
unfolding latency_eq
latency_eq_refl none = refl
latency_eq_refl (some a) = ground arith

count_eq_refl : (n : Option ℕ) → count_eq n n ≡ true
unfolding count_eq
count_eq_refl none = refl
count_eq_refl (some a) = ground arith

-- The two computations of the statistics differ only in how they test the status.
pub statistics_lem :
    (rs : List MeasurementRecord) (s : ValidityStatus) → statistics rs s ≡ expected_statistics rs s
unfolding statistics expected_statistics validity_eq
statistics_lem rs ValidityStatus.valid = refl
statistics_lem rs ValidityStatus.invalid = refl
statistics_lem rs ValidityStatus.indeterminate = refl

-- The statistics are computed without a panic, and so is the summary.
pub statistics_total :
    (rs : List MeasurementRecord) (s : ValidityStatus)
    → (found : Option LatencySummary × Option ℕ) × (statistics rs s ≡ some found)
unfolding statistics
statistics_total rs s =
    let (latency, computed) = describe_micros_total (map (λ r. r.latency_micros) rs) in
    elim (Option-cases (statistics rs s)) [
      | inl panics ↦ absurd (ground arith)
      | inr (found, given) ↦ (found, given)
    ]

-- Both sides judge a state alike.
status_lem :
    (state : RunState) (required observed : ℕ)
    → Option.map (λ v. v.0) (validity_of state required observed)
      ≡ expected_validity state observed required
unfolding validity_of expected_validity
status_lem RunState.succeeded required observed = ground arith
status_lem _ required observed = refl

pub validity_of-terminal :
    (state : RunState) (required observed : ℕ)
    → is_terminal state ≡ true
    → validity_of state required observed ≢ none
unfolding validity_of is_terminal
validity_of-terminal RunState.succeeded required observed h = ground arith
validity_of-terminal RunState.failed required observed h = ground arith
validity_of-terminal RunState.interrupted required observed h = ground arith
validity_of-terminal _ required observed h = absurd (ground arith)

module _ (plan : ResolvedExperiment) (output : ExecutionOutput) (run_id : String)
    (warmups measured : ℕ) (generator : Option String) where
  -- what `validate_measurements` gives for the output's records
  abbrev pub validated : MeasurementValidation
  validated = record {
    measured_records = measured;
    generator = generator;
    records = output.measurements;
  }

  abbrev result : ValidityStatus × List ValidityReason → ValidityResult
  result v = record {
    run_id = run_id;
    status = v.0;
    required_samples = plan.experiment.spec.measurement.repetitions;
    observed_samples = measured;
    reasons = v.1;
  }

  module _ (valid : ValidFrom plan warmups 0 none output.measurements)
      (complete : length output.measurements ≡ warmups + measured) (fits : measured < u32_mod) where
    observed_lem : length (measured_records output.measurements) % u32_mod ≡ measured
    observed_lem =
        let count = measured_lem plan warmups 0 none output.measurements valid in
        ap (λ n. n % u32_mod) (omega (arith, count)) ∙ mod-eq_of_lt fits

    evaluated :
        (v : ValidityStatus × List ValidityReason)
        → validity_of output.terminal_state plan.experiment.spec.measurement.repetitions measured
          ≡ some v
        → evaluate_validity plan output run_id ≡ some (result v)
    unfolding evaluate_validity
    evaluated v judged =
        let seen : observed_samples output.measurements ≡ measured =
          unfold observed_samples in observed_lem in
        ground (arith, seen, judged)

    check_validity-result :
        (v : ValidityStatus × List ValidityReason)
        → expected_validity output.terminal_state measured
            plan.experiment.spec.measurement.repetitions
          ≡ some v.0
        → check_validity plan (manifest_of plan output (result v) run_id) validated (result v)
          ≡ some (ok tt)
    unfolding check_validity manifest_of
    check_validity-result v expected =
        ground (arith, expected, validity_eq_refl v.0, eq_iff run_id run_id)

    check_summary-summarize :
        (v : ValidityResult)
        → (z : RunSummary) × (summarize plan output v run_id ≡ some z)
          × (check_summary (manifest_of plan output v run_id) validated z ≡ some (ok tt))
    unfolding check_summary manifest_of summarize
    check_summary-summarize v =
        let rs = measured_records output.measurements in
        let (found, computed) = statistics_total rs v.status in
        let z : RunSummary = summary_of plan output v run_id found in
        let same : compare_summary (manifest_of plan output v run_id) validated z found ≡ ok tt =
          ground (
            arith,
            observed_lem,
            validity_eq_refl v.status,
            run_state_eq_refl output.terminal_state,
            latency_eq_refl found.0,
            count_eq_refl found.1,
            eq_iff run_id run_id,
            eq_iff plan.experiment_digest plan.experiment_digest,
            eq_iff plan.resolved_plan_digest plan.resolved_plan_digest,
          ) in
        (z, ground arith, ground (arith, statistics_lem rs v.status))

    -- The reports of a terminal output, whose records are valid in their sequence and are
    -- `warmups` and `measured` in number: `evaluate_validity` and `summarize` give a result, without
    -- a panic, and both pass the verifier's checks under the run's manifest, which do not panic
    -- either.
    pub reports-consistent :
        is_terminal output.terminal_state ≡ true
        → (v : ValidityResult) × (evaluate_validity plan output run_id ≡ some v)
          × (check_validity plan (manifest_of plan output v run_id) validated v ≡ some (ok tt))
          × ((z : RunSummary) × (summarize plan output v run_id ≡ some z)
              × (check_summary (manifest_of plan output v run_id) validated z ≡ some (ok tt)))
    reports-consistent terminal =
        let required = plan.experiment.spec.measurement.repetitions in
        elim (Option-cases (validity_of output.terminal_state required measured)) [
          | inl panics ↦
              absurd (validity_of-terminal output.terminal_state required measured terminal panics)
          | inr (v, judged) ↦ (
            result v,
            evaluated v judged,
            check_validity-result v (
                sym (status_lem output.terminal_state required measured)
                ∙ ap (Option.map (λ w. w.0)) judged),
            check_summary-summarize (result v),
          )
        ]
