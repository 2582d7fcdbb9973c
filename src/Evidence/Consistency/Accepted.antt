-- ===== src/Evidence/Consistency/Accepted.antt =====
-- What the checks of the single records in `validate_record_consistency` of
-- crates/benchplane-core/src/evidence.rs leave of run.json, attempt.json, validity.json, summary.json
-- and events.jsonl.
use benchplane.Base.{
  ℕ, ◌≡◌, refl, ap, sym, ◌∙◌, String, true, not, Option, none, some, List, [], ◌∷◌, All, select,
  Result, ok, arith, eq_iff, Option-cases, Result-cases, inl, inr,
}
use benchplane.Schema.Experiment.{ResolvedExperiment}
use benchplane.Schema.Evidence.{
  RunState, AttemptStatus, ValidityStatus, RunRecord, AttemptRecord, LifecycleEvent, run_state_eq,
}
use benchplane.Schema.Measurement.{EvidenceManifest, ValidityResult, RunSummary, LatencySummary}
use benchplane.Execution.{is_empty, measured_records}
use benchplane.Provenance.{split}
use benchplane.Evidence.Measurements.{MeasurementValidation}
use benchplane.Evidence.Reports.{
  validity_eq, latency_eq, count_eq, expected_validity, expected_statistics, check_validity,
  check_summary,
}
use benchplane.Evidence.Entries.{
  get, parse_record, check_run, check_attempt, attempt_status_eq, expected_attempt_status,
  check_events,
}

-- a record that is there, decodes, and has a property
abbrev pub Holds :
    {A : Type 0}
    → (List ℕ → Result A String)
    → List (String × List ℕ)
    → String
    → (A → Type 0)
    → Type 0
Holds {A} decoder records path P = (a : A) × (parse_record decoder records path ≡ ok a) × P a

abbrev pub IsRunOf : EvidenceManifest → RunRecord → Type 0
IsRunOf manifest r =
    (r.run_id ≡ manifest.run_id)
    × (r.run_status ≡ manifest.run_status)
    × (r.attempt_count ≡ 1)
    × (r.experiment_digest ≡ manifest.experiment_digest)
    × (r.resolved_plan_digest ≡ manifest.resolved_plan_digest)

abbrev pub IsAttemptOf : EvidenceManifest → AttemptRecord → Type 0
IsAttemptOf manifest a =
    (a.run_id ≡ manifest.run_id)
    × (a.attempt_number ≡ 1)
    × (expected_attempt_status manifest.run_status ≡ some a.status)

abbrev pub IsValidityOf : EvidenceManifest → ResolvedExperiment → ℕ → ValidityResult → Type 0
IsValidityOf manifest plan measured v =
    (v.run_id ≡ manifest.run_id)
    × (v.status ≡ manifest.validity_status)
    × (v.required_samples ≡ plan.experiment.spec.measurement.repetitions)
    × (v.observed_samples ≡ measured)

abbrev pub IsSummaryOf : EvidenceManifest → MeasurementValidation → RunSummary → Type 0
IsSummaryOf manifest m s =
    (s.run_id ≡ manifest.run_id)
    × (s.run_status ≡ manifest.run_status)
    × (s.validity_status ≡ manifest.validity_status)
    × (s.attempt_count ≡ 1)
    × (s.sample_count ≡ m.measured_records)
    × (s.experiment_digest ≡ manifest.experiment_digest)
    × (s.resolved_plan_digest ≡ manifest.resolved_plan_digest)
    × (expected_statistics (measured_records m.records) manifest.validity_status
        ≡ some (s.latency, s.mean_throughput_milli_requests_per_second))

-- a line of the journal is an event of the run's attempt
abbrev pub IsEventLine :
    (List ℕ → Result LifecycleEvent String) → EvidenceManifest → List ℕ → Type 0
IsEventLine decoder manifest line =
    (e : LifecycleEvent) × (decoder line ≡ ok e)
    × (e.run_id ≡ manifest.run_id)
    × (e.attempt_number ≡ 1)

abbrev pub IsJournal :
    (List ℕ → Result LifecycleEvent String) → EvidenceManifest → List (String × List ℕ) → Type 0
IsJournal decoder manifest records =
    (bytes : List ℕ) × (get records "events.jsonl" ≡ some bytes)
    × All (IsEventLine decoder manifest) (select (λ line. not (is_empty line)) (split 10 bytes))

run_state_eq_lem : (a b : RunState) → run_state_eq a b ≡ true → a ≡ b
unfolding run_state_eq
run_state_eq_lem a b h = ground arith

attempt_status_eq_lem : (a b : AttemptStatus) → attempt_status_eq a b ≡ true → a ≡ b
unfolding attempt_status_eq
attempt_status_eq_lem a b h = ground arith

pub validity_eq_lem : (a b : ValidityStatus) → validity_eq a b ≡ true → a ≡ b
unfolding validity_eq
validity_eq_lem a b h = ground arith

latency_eq_lem : (a b : Option LatencySummary) → latency_eq a b ≡ true → a ≡ b
unfolding latency_eq
latency_eq_lem none none h = refl
latency_eq_lem none (some b) h = cc
latency_eq_lem (some a) none h = cc
latency_eq_lem (some a) (some b) h = ground arith

count_eq_lem : (a b : Option ℕ) → count_eq a b ≡ true → a ≡ b
unfolding count_eq
count_eq_lem none none h = refl
count_eq_lem none (some b) h = cc
count_eq_lem (some a) none h = cc
count_eq_lem (some a) (some b) h = ground arith

pub check_run_lem :
    (r : RunRecord) (manifest : EvidenceManifest)
    → check_run r manifest ≡ ok tt
    → IsRunOf manifest r
unfolding check_run
check_run_lem r manifest h = ground (
  arith,
  eq_iff r.run_id manifest.run_id,
  run_state_eq_lem r.run_status manifest.run_status,
  eq_iff r.experiment_digest manifest.experiment_digest,
  eq_iff r.resolved_plan_digest manifest.resolved_plan_digest,
)

pub check_attempt_lem :
    (a : AttemptRecord) (manifest : EvidenceManifest)
    → check_attempt a manifest ≡ some (ok tt)
    → IsAttemptOf manifest a
unfolding check_attempt
check_attempt_lem a manifest h = elim (Option-cases (expected_attempt_status manifest.run_status)) [
  | inl unreachable ↦ absurd (ground arith)
  | inr (expected, found) ↦
      let same : a.status ≡ expected = attempt_status_eq_lem a.status expected (ground arith) in
      (ground (arith, eq_iff a.run_id manifest.run_id), ground arith, found ∙ ap some (sym same))
]

pub check_validity_lem :
    (plan : ResolvedExperiment) (manifest : EvidenceManifest) (m : MeasurementValidation)
    (v : ValidityResult)
    → check_validity plan manifest m v ≡ some (ok tt)
    → IsValidityOf manifest plan m.measured_records v
      × (expected_validity manifest.run_status m.measured_records
            plan.experiment.spec.measurement.repetitions
          ≡ some manifest.validity_status)
unfolding check_validity
check_validity_lem plan manifest m v h =
    let repetitions = plan.experiment.spec.measurement.repetitions in
    elim (Option-cases (expected_validity manifest.run_status m.measured_records repetitions)) [
      | inl unreachable ↦ absurd (ground arith)
      | inr (expected, found) ↦ ground (
        arith,
        eq_iff v.run_id manifest.run_id,
        validity_eq_lem v.status expected,
        validity_eq_lem v.status manifest.validity_status,
      )
    ]

pub check_summary_lem :
    (manifest : EvidenceManifest) (m : MeasurementValidation) (s : RunSummary)
    → check_summary manifest m s ≡ some (ok tt)
    → IsSummaryOf manifest m s
unfolding check_summary
check_summary_lem manifest m s h =
    elim (Option-cases
      (expected_statistics (measured_records m.records) manifest.validity_status)) [
        | inl panics ↦ absurd (ground arith)
        | inr ((latency, throughput), found) ↦ ground (
          arith,
          eq_iff s.run_id manifest.run_id,
          run_state_eq_lem s.run_status manifest.run_status,
          validity_eq_lem s.validity_status manifest.validity_status,
          eq_iff s.experiment_digest manifest.experiment_digest,
          eq_iff s.resolved_plan_digest manifest.resolved_plan_digest,
          latency_eq_lem s.latency latency,
          count_eq_lem s.mean_throughput_milli_requests_per_second throughput,
        )
      ]

pub check_events_lem :
    (decoder : List ℕ → Result LifecycleEvent String) (manifest : EvidenceManifest)
    (ls : List (List ℕ))
    → check_events decoder manifest ls ≡ ok tt
    → All (IsEventLine decoder manifest) ls
unfolding check_events
check_events_lem decoder manifest [] h = tt
check_events_lem decoder manifest (line ∷ rest) h = elim (Result-cases (decoder line)) [
  | inr (x, undecoded) ↦ absurd (ground arith)
  | inl (e, decoded) ↦ (
    (e, decoded, ground (arith, eq_iff e.run_id manifest.run_id), ground arith),
    check_events_lem decoder manifest rest (ground arith),
  )
]
