-- ===== src/Evidence/Consistency.antt =====
-- `validate_record_consistency` of crates/benchplane-core/src/evidence.rs with the checks of the
-- records that it calls. The decoders of the records, the parser of an experiment, and what reading
-- the measurements file gives are parameters. A panic is `none`. An error of opening or reading that
-- file, which the code meets among the checks of the measurements, is taken before all of them: which
-- error is reported may differ, but not what is accepted.
pub mod Attempt
pub mod Accepted
pub mod Steps
pub mod Files
pub mod Sound
pub mod Total
use benchplane.Evidence.Outcome.{Outcome, ◌>>=◌, ◌>>◌}
use benchplane.Base.{
  ℕ, String, Bool, true, false, not, ◌||◌, Option, none, some, List, [], ◌∷◌, select, ◌==◌, str_eq,
  if◌then◌else◌, Result, ok, err, ok_or, fail_if, format,
}
use benchplane.Schema.Experiment.{Experiment, ResolvedExperiment}
use benchplane.Schema.Equality.{plan_eq}
use benchplane.Schema.Evidence.{
  RunState, AttemptStatus, RunRecord, AttemptRecord, AttemptProvenance, AttemptResources,
  LifecycleEvent, run_state_eq,
}
use benchplane.Schema.Measurement.{EvidenceManifest, ValidityResult, RunSummary, MeasurementRecord}
use benchplane.Execution.{is_empty}
use benchplane.Provenance.{split}
use benchplane.Resolution.{ResolvedPlanContent, ResolutionError, resolve_experiment}
use benchplane.Evidence.Error.{EvidenceError}
use benchplane.Evidence.Records.{Checked}
use benchplane.Evidence.Measurements.{
  MeasurementValidation, validate_measurements, measurements_path,
}
use benchplane.Evidence.Reports.{check_validity, check_summary}
use benchplane.Evidence.Provenance.{
  text_option_eq, validate_attempt_provenance, validate_attempt_resources,
}
use benchplane.Evidence.Entries.{
  get, decoded_as, parse_from, parse_record, check_run, expected_attempt_status, check_attempt,
  check_event, check_events,
}

-- the decoders of the records, as serde gives them
pub record Decoders : Type 0 where
  pub experiment : List ℕ → Result Experiment String
  pub plan : List ℕ → Result ResolvedExperiment String
  pub measurement : List ℕ → Result MeasurementRecord String
  pub run : List ℕ → Result RunRecord String
  pub attempt : List ℕ → Result AttemptRecord String
  pub provenance : List ℕ → Result AttemptProvenance String
  pub resources : List ℕ → Result AttemptResources String
  pub validity : List ℕ → Result ValidityResult String
  pub summary : List ℕ → Result RunSummary String
  pub event : List ℕ → Result LifecycleEvent String

pub record VerifiedEvidenceBundle : Type 0 where
  pub root : String
  pub manifest : EvidenceManifest
  pub plan : ResolvedExperiment
  pub provenance : Option AttemptProvenance
  pub resources : Option AttemptResources
  pub measurements : List MeasurementRecord

module _ {A : Type 0} where
  -- an optional record, checked where it is there
  abbrev pub checked_record :
      (List ℕ → Result A String) → String → Option (List ℕ) → (A → Checked) → Outcome (Option A)
  checked_record decoder path none check = some (ok none)
  checked_record decoder path (some bytes) check = do
    a ← some (decoded_as path (decoder bytes))
    some (check a)
    some (ok (some a))

-- the text of an error
abbrev shown : ResolutionError → String
shown (ResolutionError.validation errors) = "experiment validation failed"
shown (ResolutionError.deterministic_serialization e) =
    format ("failed to deterministically serialize the typed experiment: " ∷ e ∷ [])

module _ (decode : Decoders) (encode : Experiment → Result (List ℕ) String)
    (encode_content : ResolvedPlanContent → Result (List ℕ) String) (sha256 : List ℕ → String) where
  abbrev resolve : Experiment → Result ResolvedExperiment ResolutionError
  resolve = resolve_experiment encode encode_content sha256

  unfoldable pub validate_resolved_plan : ResolvedExperiment → EvidenceManifest → Checked
  validate_resolved_plan plan manifest = elim (resolve plan.experiment) [
    | err e ↦ err (EvidenceError.invalid_resolved_plan (shown e))
    | ok expected ↦
        fail_if
          (not (plan_eq expected plan)
            || not (str_eq plan.experiment_digest manifest.experiment_digest)
            || not (str_eq plan.resolved_plan_digest manifest.resolved_plan_digest))
          (EvidenceError.invalid_resolved_plan
            "typed content or deterministic digests do not match the bundle")
  ]

  abbrev pub reproduces : ResolvedExperiment → Result ResolvedExperiment ResolutionError → Checked
  reproduces plan (err e) = err (EvidenceError.invalid_original_experiment (shown e))
  reproduces plan (ok resolved) = fail_if (not (plan_eq resolved plan)) (
      EvidenceError.invalid_original_experiment
        "experiment.yaml does not deterministically reproduce resolved-plan.json")

  unfoldable pub validate_original_experiment :
      List (String × List ℕ) → ResolvedExperiment → Checked
  unfolding get
  validate_original_experiment records plan = elim (get records "experiment.yaml") [
    | none ↦ err (EvidenceError.missing_required_payload "experiment.yaml")
    | some bytes ↦ elim (decode.experiment bytes) [
      | err e ↦ err (EvidenceError.invalid_original_experiment e)
      | ok e ↦ reproduces plan (resolve e)
    ]
  ]

  unfoldable pub check_plan : EvidenceManifest → List (String × List ℕ) → Outcome ResolvedExperiment
  check_plan manifest records = do
    plan ← some (parse_record decode.plan records "resolved-plan.json")
    some (validate_resolved_plan plan manifest)
    some (validate_original_experiment records plan)
    some (ok plan)

  unfoldable pub check_statuses : EvidenceManifest → List (String × List ℕ) → Outcome (Unit {0})
  check_statuses manifest records = do
    run ← some (parse_record decode.run records "run.json")
    some (check_run run manifest)
    attempt ← some (parse_record decode.attempt records "attempts/0001/attempt.json")
    check_attempt attempt manifest

  unfoldable pub check_reports :
      EvidenceManifest
      → List (String × List ℕ)
      → ResolvedExperiment
      → MeasurementValidation
      → Outcome (Unit {0})
  unfolding get
  check_reports manifest records plan m = do
    validity ← some (parse_record decode.validity records "validity.json")
    check_validity plan manifest m validity
    summary ← some (parse_record decode.summary records "summary.json")
    check_summary manifest m summary
    events ←
        some (
          ok_or (get records "events.jsonl")
            (EvidenceError.missing_required_payload "events.jsonl"))
    some (
        check_events decode.event manifest (select (λ line. not (is_empty line)) (split 10 events)))

  -- what follows on `validate_measurements`
  unfoldable pub check_records :
      String
      → EvidenceManifest
      → List (String × List ℕ)
      → ResolvedExperiment
      → MeasurementValidation
      → Outcome VerifiedEvidenceBundle
  unfolding get
  check_records root manifest records plan m = do
    check_statuses manifest records
    provenance ←
        checked_record decode.provenance "attempts/0001/provenance.json"
          (get records "attempts/0001/provenance.json")
          (λ p. validate_attempt_provenance p manifest plan m.generator)
    resources ←
        checked_record decode.resources "attempts/0001/resources.json"
          (get records "attempts/0001/resources.json")
          (λ r. validate_attempt_resources r manifest plan)
    check_reports manifest records plan m
    some (
        ok (record {
          root = root;
          manifest = manifest;
          plan = plan;
          provenance = provenance;
          resources = resources;
          measurements = m.records;
        }))

  -- `content` is what reading the measurements file gives; `file_name` is the bundle
  -- directory's, where it is a text.
  unfoldable pub validate_record_consistency :
      String
      → Option String
      → Result (List ℕ) EvidenceError
      → EvidenceManifest
      → List (String × List ℕ)
      → List (String × String)
      → Outcome VerifiedEvidenceBundle
  unfolding get
  validate_record_consistency root file_name content manifest records digests = do
    some (
        fail_if (not (text_option_eq file_name (some manifest.run_id)))
          EvidenceError.bundle_run_id_mismatch)
    plan ← check_plan manifest records
    digest ← some (
        ok_or (get digests measurements_path)
          (EvidenceError.missing_required_payload measurements_path))
    bytes ← some content
    m ← some (validate_measurements decode.measurement sha256 bytes digest plan manifest.run_status)
    check_records root manifest records plan m
