-- ===== src/Evidence/Consistency/Total.antt =====
-- `validate_record_consistency` of crates/benchplane-core/src/evidence.rs does not panic.
use benchplane.Evidence.Outcome.{Outcome-cases, fails, gives, panics}
use benchplane.Base.{
  ℕ, ◌≡◌, ◌≢◌, refl, String, true, Option, none, some, List, Result, arith, Option-cases,
  Result-cases, inl, inr,
}
use benchplane.Schema.Experiment.{Experiment, ResolvedExperiment}
use benchplane.Schema.Evidence.{
  RunState, AttemptStatus, AttemptRecord, AttemptProvenance, AttemptResources, is_terminal,
}
use benchplane.Schema.Measurement.{EvidenceManifest, ValidityResult, RunSummary}
use benchplane.Execution.{measured_records}
use benchplane.Evidence.Reports.Consistent.{statistics_lem, statistics_total}
use benchplane.Resolution.{ResolvedPlanContent}
use benchplane.Evidence.Error.{EvidenceError}
use benchplane.Evidence.Records.{Checked}
use benchplane.Evidence.Measurements.{
  MeasurementValidation, validate_measurements, measurements_path,
}
use benchplane.Evidence.Reports.{expected_validity, check_validity, check_summary}
use benchplane.Evidence.Provenance.{validate_attempt_provenance, validate_attempt_resources}
use benchplane.Evidence.Entries.{get, parse_record, expected_attempt_status, check_attempt}
use benchplane.Evidence.Consistency.{
  Decoders, checked_record, check_plan, check_statuses, check_reports, check_records,
  validate_resolved_plan, validate_record_consistency,
}
use benchplane.Evidence.Consistency.Files.{provenance_path, resources_path}

pub expected_total :
    (status : RunState)
    → is_terminal status ≡ true
    → (a : AttemptStatus) × (expected_attempt_status status ≡ some a)
unfolding is_terminal expected_attempt_status
expected_total RunState.succeeded h = (AttemptStatus.succeeded, refl)
expected_total RunState.failed h = (AttemptStatus.failed, refl)
expected_total RunState.interrupted h = (AttemptStatus.interrupted, refl)
expected_total RunState.created h = cc
expected_total RunState.preparing h = cc
expected_total RunState.running h = cc
expected_total RunState.collecting h = cc
expected_total RunState.finalizing h = cc

check_attempt_total :
    (attempt : AttemptRecord) (manifest : EvidenceManifest)
    → is_terminal manifest.run_status ≡ true
    → check_attempt attempt manifest ≢ none
unfolding check_attempt
check_attempt_total attempt manifest h p =
    let expected = expected_total manifest.run_status h in ground (arith, expected.1)

validity_total :
    (status : RunState) (measured repetitions : ℕ)
    → is_terminal status ≡ true
    → expected_validity status measured repetitions ≢ none
unfolding is_terminal expected_validity
validity_total RunState.succeeded m r h p = ground arith
validity_total RunState.failed m r h p = cc
validity_total RunState.interrupted m r h p = cc
validity_total RunState.created m r h p = cc
validity_total RunState.preparing m r h p = cc
validity_total RunState.running m r h p = cc
validity_total RunState.collecting m r h p = cc
validity_total RunState.finalizing m r h p = cc

check_validity_total :
    (plan : ResolvedExperiment) (manifest : EvidenceManifest) (m : MeasurementValidation)
    (v : ValidityResult)
    → is_terminal manifest.run_status ≡ true
    → check_validity plan manifest m v ≢ none
unfolding check_validity
check_validity_total plan manifest m v h p =
    let repetitions = plan.experiment.spec.measurement.repetitions in
    elim (Option-cases (expected_validity manifest.run_status m.measured_records repetitions)) [
      | inl unreachable ↦
          validity_total manifest.run_status m.measured_records repetitions h unreachable
      | inr (expected, found) ↦ ground arith
    ]

-- The statistics of the records are computed again without a panic.
check_summary_total :
    (manifest : EvidenceManifest) (m : MeasurementValidation) (s : RunSummary)
    → check_summary manifest m s ≢ none
unfolding check_summary
check_summary_total manifest m s p =
    let rs = measured_records m.records in
    let (found, computed) = statistics_total rs manifest.validity_status in
    ground (arith, statistics_lem rs manifest.validity_status)

checked_record_total :
    {A : Type 0} (decoder : List ℕ → Result A String) (path : String) (bytes : Option (List ℕ))
    (check : A → Checked)
    → checked_record decoder path bytes check ≢ none
checked_record_total decoder path none check p = cc
checked_record_total decoder path (some bytes) check p = elim (Result-cases (decoder bytes)) [
  | inr (e, undecoded) ↦ ground arith
  | inl (a, readable) ↦ elim (Result-cases (check a)) [
    | inr (e, rejected) ↦ ground arith
    | inl (u, passed) ↦ ground arith
  ]
]

module _ (decode : Decoders) (encode : Experiment → Result (List ℕ) String)
    (encode_content : ResolvedPlanContent → Result (List ℕ) String) (sha256 : List ℕ → String) where
  check_plan_total :
      (manifest : EvidenceManifest) (records : List (String × List ℕ))
      → check_plan decode encode encode_content sha256 manifest records ≢ none
  unfolding check_plan
  check_plan_total manifest records p =
      elim (Result-cases (parse_record decode.plan records "resolved-plan.json")) [
        | inr (e, missing) ↦ ground arith
        | inl (plan, found) ↦
            elim (Result-cases
              (validate_resolved_plan decode encode encode_content sha256 plan manifest)) [
                | inr (e, rejected) ↦ ground arith
                | inl (u, valid) ↦ ground arith
              ]
      ]

  check_statuses_total :
      (manifest : EvidenceManifest) (records : List (String × List ℕ))
      → is_terminal manifest.run_status ≡ true
      → check_statuses decode encode encode_content sha256 manifest records ≢ none
  unfolding check_statuses
  check_statuses_total manifest records h p =
      elim (Result-cases (parse_record decode.run records "run.json")) [
        | inr (e, missing) ↦ ground arith
        | inl (run, found) ↦
            elim (Result-cases (parse_record decode.attempt records "attempts/0001/attempt.json")) [
              | inr (e, missing) ↦ ground arith
              | inl (attempt, read) ↦ ground (arith, check_attempt_total attempt manifest h)
            ]
      ]

  check_reports_total :
      (manifest : EvidenceManifest) (records : List (String × List ℕ)) (plan : ResolvedExperiment)
      (m : MeasurementValidation)
      → is_terminal manifest.run_status ≡ true
      → check_reports decode encode encode_content sha256 manifest records plan m ≢ none
  unfolding check_reports
  check_reports_total manifest records plan m h p =
      elim (Result-cases (parse_record decode.validity records "validity.json")) [
        | inr (e, missing) ↦ ground arith
        | inl (v, found) ↦ elim (Outcome-cases (check_validity plan manifest m v)) [
          | panics q ↦ check_validity_total plan manifest m v h q
          | fails e q ↦ ground arith
          | gives u q ↦ elim (Result-cases (parse_record decode.summary records "summary.json")) [
            | inr (e, missing) ↦ ground arith
            | inl (s, read) ↦ elim (Outcome-cases (check_summary manifest m s)) [
              | panics r ↦ check_summary_total manifest m s r
              | fails e r ↦ ground arith
              | gives t right ↦ ground arith
            ]
          ]
        ]
      ]

  check_records_total :
      (root : String) (manifest : EvidenceManifest) (records : List (String × List ℕ))
      (plan : ResolvedExperiment) (m : MeasurementValidation)
      → is_terminal manifest.run_status ≡ true
      → check_records decode encode encode_content sha256 root manifest records plan m ≢ none
  unfolding check_records
  check_records_total root manifest records plan m h p =
      let check_provenance =
        λ (a : AttemptProvenance). validate_attempt_provenance a manifest plan m.generator in
      let check_resources = λ (r : AttemptResources). validate_attempt_resources r manifest plan in
      elim (Outcome-cases (check_statuses decode encode encode_content sha256 manifest records)) [
        | panics q ↦ check_statuses_total manifest records h q
        | fails e q ↦ ground arith
        | gives u first ↦
            elim (Outcome-cases (
              checked_record decode.provenance provenance_path (get records provenance_path)
                check_provenance)) [
                  | panics q ↦
                      checked_record_total decode.provenance provenance_path
                        (get records provenance_path) check_provenance q
                  | fails e q ↦ ground arith
                  | gives found second ↦
                      elim (Outcome-cases (
                        checked_record decode.resources resources_path (get records resources_path)
                          check_resources)) [
                            | panics q ↦
                                checked_record_total decode.resources resources_path
                                  (get records resources_path) check_resources q
                            | fails e q ↦ ground arith
                            | gives used third ↦
                                elim (Outcome-cases (
                                  check_reports decode encode encode_content sha256 manifest records
                                    plan m)) [
                                      | panics q ↦ check_reports_total manifest records plan m h q
                                      | fails e q ↦ ground arith
                                      | gives v q ↦ ground arith
                                    ]
                          ]
                ]
      ]

  -- Under a manifest with a terminal status no check of the records panics, whatever they hold.
  pub validate_record_consistency_total :
      (root : String) (file_name : Option String) (content : Result (List ℕ) EvidenceError)
      (manifest : EvidenceManifest) (records : List (String × List ℕ))
      (digests : List (String × String))
      → is_terminal manifest.run_status ≡ true
      → validate_record_consistency decode encode encode_content sha256 root file_name content
          manifest records digests
        ≢ none
  unfolding validate_record_consistency
  validate_record_consistency_total root file_name content manifest records digests h p =
      elim (Outcome-cases (check_plan decode encode encode_content sha256 manifest records)) [
        | panics q ↦ check_plan_total manifest records q
        | fails e q ↦ ground arith
        | gives plan planned ↦ elim (Option-cases (get digests measurements_path)) [
          | inl missing ↦ ground arith
          | inr (digest, listed) ↦ elim (Result-cases content) [
            | inr (e, unread) ↦ ground arith
            | inl (bytes, read) ↦
                elim (Result-cases (
                  validate_measurements decode.measurement sha256 bytes digest plan
                    manifest.run_status)) [
                      | inr (e, invalid) ↦ ground arith
                      | inl (m, measured) ↦
                          ground (arith, check_records_total root manifest records plan m h)
                    ]
          ]
        ]
      ]
