-- ===== src/Evidence/Consistency/Steps.antt =====
-- The checks of the plan and of the reports in `validate_record_consistency` of
-- crates/benchplane-core/src/evidence.rs, each turned into what it leaves.
use benchplane.Evidence.Outcome.{Outcome-cases, fails, gives, panics}
use benchplane.Base.{
  select, not, ℕ, ◌≡◌, subst, String, true, Option, none, some, List, Result, ok, arith, eq_iff,
  Option-cases, Result-cases, inl, inr,
}
use benchplane.Schema.Experiment.{Experiment, ResolvedExperiment}
use benchplane.Schema.Measurement.{EvidenceManifest}
use benchplane.Schema.Validate.{validate}
use benchplane.Resolution.{ResolvedPlanContent, resolve_experiment}
use benchplane.Resolution.Digests.{resolve_experiment_lem}
use benchplane.Evidence.Measurements.{MeasurementValidation}
use benchplane.Evidence.Reports.{expected_validity, check_validity}
use benchplane.Evidence.Reports.{check_summary}
use benchplane.Execution.{is_empty}
use benchplane.Provenance.{split}
use benchplane.Schema.Equality.{plan_eq}
use benchplane.Evidence.Entries.{get, check_run}
use benchplane.Evidence.Consistency.{check_statuses}
use benchplane.Evidence.Consistency.Accepted.{
  Holds, IsRunOf, IsAttemptOf, IsValidityOf, IsSummaryOf, IsJournal, check_run_lem,
  check_attempt_lem, check_validity_lem, check_summary_lem, check_events_lem,
}
use benchplane.Evidence.Provenance.{text_option_eq}
use benchplane.Evidence.Entries.{parse_record}
use benchplane.Evidence.Consistency.{
  Decoders, check_plan, check_reports, validate_resolved_plan, validate_original_experiment,
}

plan_lem :
    (decode : Decoders) (encode : Experiment → Result (List ℕ) String)
    (encode_content : ResolvedPlanContent → Result (List ℕ) String) (sha256 : List ℕ → String)
    (plan : ResolvedExperiment) (manifest : EvidenceManifest)
    → validate_resolved_plan decode encode encode_content sha256 plan manifest ≡ ok tt
    → (validate plan.experiment ≡ ok tt)
      × (plan.experiment_digest ≡ manifest.experiment_digest)
      × (plan.resolved_plan_digest ≡ manifest.resolved_plan_digest)
unfolding validate_resolved_plan
plan_lem decode encode encode_content sha256 plan manifest h =
    elim (Result-cases (resolve_experiment encode encode_content sha256 plan.experiment)) [
      | inr (e, unresolved) ↦ absurd (ground arith)
      | inl (made, resolved) ↦ (
        (resolve_experiment_lem encode encode_content sha256 plan.experiment made resolved).0,
        ground (arith, eq_iff plan.experiment_digest manifest.experiment_digest),
        ground (arith, eq_iff plan.resolved_plan_digest manifest.resolved_plan_digest),
      )
    ]

pub named_lem :
    (file_name : Option String) (run_id : String)
    → text_option_eq file_name (some run_id) ≡ true
    → file_name ≡ some run_id
unfolding text_option_eq
named_lem none run_id h = cc
named_lem (some name) run_id h = ground (arith, eq_iff name run_id)

-- experiment.yaml decodes to an experiment whose plan is equal to the bundle's
abbrev pub IsOriginal :
    Decoders
    → (Experiment → Result (List ℕ) String)
    → (ResolvedPlanContent → Result (List ℕ) String)
    → (List ℕ → String)
    → List (String × List ℕ)
    → ResolvedExperiment
    → Type 0
IsOriginal decode encode encode_content sha256 records plan =
    (bytes : List ℕ) × (e : Experiment) × (made : ResolvedExperiment) × (get records
        "experiment.yaml"
      ≡ some bytes)
    × (decode.experiment bytes ≡ ok e)
    × (resolve_experiment encode encode_content sha256 e ≡ ok made)
    × (plan_eq made plan ≡ true)

-- the plan that the bundle holds is a resolved one, with the digests of the manifest
abbrev pub IsPlanOf :
    Decoders
    → (Experiment → Result (List ℕ) String)
    → (ResolvedPlanContent → Result (List ℕ) String)
    → (List ℕ → String)
    → EvidenceManifest
    → List (String × List ℕ)
    → ResolvedExperiment
    → Type 0
IsPlanOf decode encode encode_content sha256 manifest records plan =
    (parse_record decode.plan records "resolved-plan.json" ≡ ok plan)
    × (validate plan.experiment ≡ ok tt)
    × (plan.experiment_digest ≡ manifest.experiment_digest)
    × (plan.resolved_plan_digest ≡ manifest.resolved_plan_digest)
    × IsOriginal decode encode encode_content sha256 records plan

module _ (decode : Decoders) (encode : Experiment → Result (List ℕ) String)
    (encode_content : ResolvedPlanContent → Result (List ℕ) String) (sha256 : List ℕ → String) where
  original_lem :
      (records : List (String × List ℕ)) (plan : ResolvedExperiment)
      → validate_original_experiment decode encode encode_content sha256 records plan ≡ ok tt
      → IsOriginal decode encode encode_content sha256 records plan
  unfolding validate_original_experiment
  original_lem records plan h = elim (Option-cases (get records "experiment.yaml")) [
    | inl missing ↦ absurd (ground arith)
    | inr (bytes, found) ↦ elim (Result-cases (decode.experiment bytes)) [
      | inr (x, undecoded) ↦ absurd (ground arith)
      | inl (e, decoded) ↦ elim (Result-cases (resolve_experiment encode encode_content sha256 e)) [
        | inr (x, unresolved) ↦ absurd (ground arith)
        | inl (made, resolved) ↦ (bytes, e, made, found, decoded, resolved, ground arith)
      ]
    ]
  ]

  pub check_plan_lem :
      (manifest : EvidenceManifest) (records : List (String × List ℕ)) (plan : ResolvedExperiment)
      → check_plan decode encode encode_content sha256 manifest records ≡ some (ok plan)
      → IsPlanOf decode encode encode_content sha256 manifest records plan
  unfolding check_plan
  check_plan_lem manifest records plan h =
      elim (Result-cases (parse_record decode.plan records "resolved-plan.json")) [
        | inr (e, missing) ↦ absurd (ground arith)
        | inl (p, found) ↦
            elim (Result-cases
              (validate_resolved_plan decode encode encode_content sha256 p manifest)) [
                | inr (e, rejected) ↦ absurd (ground arith)
                | inl (u, valid) ↦
                    elim (Result-cases (
                      validate_original_experiment decode encode encode_content sha256 records p)) [
                        | inr (e, other) ↦ absurd (ground arith)
                        | inl (v, same) ↦
                            let (accepted, own, own') =
                              plan_lem decode encode encode_content sha256 p manifest
                                (ground arith) in
                            subst (IsPlanOf decode encode encode_content sha256 manifest records)
                              {x = p} {y = plan} (ground arith)
                              (found, accepted, own, own', original_lem records p (ground arith))
                      ]
              ]
      ]

  -- the records that are checked against the manifest and the measurements
  pub record AreRecords (manifest : EvidenceManifest) (plan : ResolvedExperiment)
      (m : MeasurementValidation) (records : List (String × List ℕ)) : Type 0 where
    pub run : Holds decode.run records "run.json" (IsRunOf manifest)
    pub attempt : Holds decode.attempt records "attempts/0001/attempt.json" (IsAttemptOf manifest)
    pub validity :
        Holds decode.validity records "validity.json"
          (IsValidityOf manifest plan m.measured_records)
    pub summary : Holds decode.summary records "summary.json" (IsSummaryOf manifest m)
    pub events : IsJournal decode.event manifest records

  pub check_statuses_lem :
      (manifest : EvidenceManifest) (records : List (String × List ℕ))
      → check_statuses decode encode encode_content sha256 manifest records ≡ some (ok tt)
      → Holds decode.run records "run.json" (IsRunOf manifest)
        × Holds decode.attempt records "attempts/0001/attempt.json" (IsAttemptOf manifest)
  unfolding check_statuses
  check_statuses_lem manifest records h =
      elim (Result-cases (parse_record decode.run records "run.json")) [
        | inr (e, missing) ↦ absurd (ground arith)
        | inl (run, found) ↦ elim (Result-cases (check_run run manifest)) [
          | inr (e, wrong) ↦ absurd (ground arith)
          | inl (u, right) ↦
              elim (Result-cases
                (parse_record decode.attempt records "attempts/0001/attempt.json")) [
                  | inr (e, missing) ↦ absurd (ground arith)
                  | inl (attempt, read) ↦ (
                    (run, found, check_run_lem run manifest (ground arith)),
                    (attempt, read, check_attempt_lem attempt manifest (ground arith)),
                  )
                ]
        ]
      ]

  pub check_reports_lem :
      (manifest : EvidenceManifest) (records : List (String × List ℕ)) (plan : ResolvedExperiment)
      (m : MeasurementValidation)
      → check_reports decode encode encode_content sha256 manifest records plan m ≡ some (ok tt)
      → Holds decode.validity records "validity.json"
          (IsValidityOf manifest plan m.measured_records)
        × Holds decode.summary records "summary.json" (IsSummaryOf manifest m)
        × IsJournal decode.event manifest records
        × (expected_validity manifest.run_status m.measured_records
              plan.experiment.spec.measurement.repetitions
            ≡ some manifest.validity_status)
  unfolding check_reports
  check_reports_lem manifest records plan m h =
      elim (Result-cases (parse_record decode.validity records "validity.json")) [
        | inr (e, missing) ↦ absurd (ground arith)
        | inl (v, found) ↦ elim (Outcome-cases (check_validity plan manifest m v)) [
          | panics p ↦ absurd (ground arith)
          | fails e p ↦ absurd (ground arith)
          | gives u valid ↦
              elim (Result-cases (parse_record decode.summary records "summary.json")) [
                | inr (e, missing) ↦ absurd (ground arith)
                | inl (s, read) ↦ elim (Outcome-cases (check_summary manifest m s)) [
                  | panics p ↦ absurd (ground arith)
                  | fails e p ↦ absurd (ground arith)
                  | gives w right ↦ elim (Option-cases (get records "events.jsonl")) [
                    | inl missing ↦ absurd (ground arith)
                    | inr (bytes, journal) ↦
                        let (valid', follows) =
                          check_validity_lem plan manifest m v (ground arith) in
                        (
                          (v, found, valid'),
                          (s, read, check_summary_lem manifest m s (ground arith)),
                          (
                            bytes,
                            journal,
                            check_events_lem decode.event manifest
                                (select (λ line. not (is_empty line)) (split 10 bytes))
                                (ground arith),
                          ),
                          follows,
                        )
                  ]
                ]
              ]
        ]
      ]
