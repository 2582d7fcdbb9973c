-- ===== src/Evidence/Consistency/Files.antt =====
-- What the checks behind the measurements in `validate_record_consistency` of
-- crates/benchplane-core/src/evidence.rs leave of a bundle.
use benchplane.Evidence.Outcome.{Outcome-cases, fails, gives, panics}
use benchplane.Base.{ℕ, ◌≡◌, sym, subst, String, some, List, Result, ok, arith}
use benchplane.Schema.Experiment.{Experiment, ResolvedExperiment}
use benchplane.Schema.Evidence.{AttemptProvenance, AttemptResources}
use benchplane.Schema.Measurement.{EvidenceManifest}
use benchplane.Resolution.{ResolvedPlanContent}
use benchplane.Evidence.Measurements.{MeasurementValidation}
use benchplane.Evidence.Reports.{expected_validity}
use benchplane.Evidence.Provenance.{validate_attempt_provenance, validate_attempt_resources}
use benchplane.Evidence.Entries.{get}
use benchplane.Evidence.Consistency.{
  Decoders, VerifiedEvidenceBundle, checked_record, check_records, check_statuses, check_reports,
}
use benchplane.Evidence.Consistency.Attempt.{
  Decoded, IsAttemptProvenance, IsAttemptResources, provenance_lem, resources_lem,
  checked_record_lem,
}
use benchplane.Evidence.Consistency.Steps.{check_reports_lem, check_statuses_lem, AreRecords}

abbrev pub provenance_path : String
provenance_path = "attempts/0001/provenance.json"

abbrev pub resources_path : String
resources_path = "attempts/0001/resources.json"

module _ (decode : Decoders) (encode : Experiment → Result (List ℕ) String)
    (encode_content : ResolvedPlanContent → Result (List ℕ) String) (sha256 : List ℕ → String) where
  -- what the checks behind the measurements leave of a bundle
  pub record HasRecords (manifest : EvidenceManifest) (plan : ResolvedExperiment)
      (m : MeasurementValidation) (records : List (String × List ℕ)) (b : VerifiedEvidenceBundle)
      : Type 0 where
    pub same_manifest : b.manifest ≡ manifest
    pub same_plan : b.plan ≡ plan
    pub same_records : b.measurements ≡ m.records
    pub validity :
        expected_validity manifest.run_status m.measured_records
          plan.experiment.spec.measurement.repetitions
        ≡ some manifest.validity_status
    pub provenance :
        Decoded decode.provenance
          (IsAttemptProvenance manifest m.generator)
          (get records provenance_path)
          b.provenance
    pub resources :
        Decoded decode.resources
          (IsAttemptResources manifest plan)
          (get records resources_path)
          b.resources
    pub others : AreRecords decode encode encode_content sha256 manifest plan m records

  pub check_records_lem :
      (root : String) (manifest : EvidenceManifest) (records : List (String × List ℕ))
      (plan : ResolvedExperiment) (m : MeasurementValidation) (b : VerifiedEvidenceBundle)
      → check_records decode encode encode_content sha256 root manifest records plan m ≡ some (ok b)
      → HasRecords manifest plan m records b
  unfolding check_records
  check_records_lem root manifest records plan m b h =
      let check_provenance =
        λ (p : AttemptProvenance). validate_attempt_provenance p manifest plan m.generator in
      let check_resources = λ (r : AttemptResources). validate_attempt_resources r manifest plan in
      elim (Outcome-cases (check_statuses decode encode encode_content sha256 manifest records)) [
        | panics p ↦ absurd (ground arith)
        | fails e p ↦ absurd (ground arith)
        | gives u statuses ↦
            elim (Outcome-cases (
              checked_record decode.provenance provenance_path (get records provenance_path)
                check_provenance)) [
                  | panics p ↦ absurd (ground arith)
                  | fails e p ↦ absurd (ground arith)
                  | gives found first ↦
                      elim (Outcome-cases (
                        checked_record decode.resources resources_path (get records resources_path)
                          check_resources)) [
                            | panics p ↦ absurd (ground arith)
                            | fails e p ↦ absurd (ground arith)
                            | gives used second ↦
                                elim (Outcome-cases (
                                  check_reports decode encode encode_content sha256 manifest records
                                    plan m)) [
                                      | panics p ↦ absurd (ground arith)
                                      | fails e p ↦ absurd (ground arith)
                                      | gives v reports ↦
                                          let first' =
                                            checked_record_lem
                                              (IsAttemptProvenance manifest m.generator)
                                              decode.provenance provenance_path
                                              (get records provenance_path) check_provenance found
                                              (λ p. provenance_lem p manifest plan m.generator)
                                              first in
                                          let second' =
                                            checked_record_lem (IsAttemptResources manifest plan)
                                              decode.resources resources_path
                                              (get records resources_path) check_resources used
                                              (λ r. resources_lem r manifest plan) second in
                                          let (run, attempt) =
                                            check_statuses_lem decode encode encode_content sha256
                                              manifest records (ground arith) in
                                          let (validity, summary, events, follows) =
                                            check_reports_lem decode encode encode_content sha256
                                              manifest records plan m (ground arith) in
                                          let same : (b.provenance ≡ found) × (b.resources ≡ used) =
                                            ground arith in
                                          record {
                                            same_manifest = ground arith;
                                            same_plan = ground arith;
                                            same_records = ground arith;
                                            validity = follows;
                                            provenance =
                                                subst
                                                  (Decoded decode.provenance
                                                    (IsAttemptProvenance manifest m.generator)
                                                    (get records provenance_path))
                                                  (sym same.0) first';
                                            resources =
                                                subst
                                                  (Decoded decode.resources
                                                    (IsAttemptResources manifest plan)
                                                    (get records resources_path))
                                                  (sym same.1) second';
                                            others = record {
                                              run = run;
                                              attempt = attempt;
                                              validity = validity;
                                              summary = summary;
                                              events = events;
                                            };
                                          }
                                    ]
                          ]
                ]
      ]
