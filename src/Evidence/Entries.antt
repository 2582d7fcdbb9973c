-- ===== src/Evidence/Entries.antt =====
-- The single records of a bundle in `validate_record_consistency` of
-- crates/benchplane-core/src/evidence.rs: parsing them, and the checks of the run, the attempt and the
-- events against the manifest. A panic is `none`.
use benchplane.Base.{
  ℕ, String, Bool, true, false, not, ◌||◌, Option, none, some, List, [], ◌∷◌, ◌==◌, str_eq,
  if◌then◌else◌, Result, ok, err, fail_if,
}
use benchplane.Schema.Evidence.{
  RunState, AttemptStatus, RunRecord, AttemptRecord, LifecycleEvent, run_state_eq,
}
use benchplane.Schema.Measurement.{EvidenceManifest}
use benchplane.Evidence.Error.{EvidenceError}
use benchplane.Evidence.Records.{Checked}

module _ {ℓ} {A : Type ℓ} where
  -- `BTreeMap::get`
  unfoldable pub get : List (String × A) → String → Option A
  get [] path = none
  get ((p, a) ∷ records) path =
      let rest = get records path in if str_eq p path then some a else rest

  -- `map_err` on serde's error
  abbrev pub decoded_as : String → Result A String → Result A EvidenceError
  decoded_as path (ok a) = ok a
  decoded_as path (err e) = err (EvidenceError.invalid_record path e)

  abbrev pub parse_from :
      (List ℕ → Result A String) → String → Option (List ℕ) → Result A EvidenceError
  parse_from decode path none = err (EvidenceError.missing_required_payload path)
  parse_from decode path (some bytes) = decoded_as path (decode bytes)

module _ {ℓ} {A : Type ℓ} where
  unfoldable pub parse_record :
      (List ℕ → Result A String) → List (String × List ℕ) → String → Result A EvidenceError
  unfolding get
  parse_record decode records path = parse_from decode path (get records path)

unfoldable pub check_run : RunRecord → EvidenceManifest → Checked
check_run run manifest =
    fail_if
      (not (str_eq run.run_id manifest.run_id)
        || not (run_state_eq run.run_status manifest.run_status)
        || not (run.attempt_count == 1)
        || not (str_eq run.experiment_digest manifest.experiment_digest)
        || not (str_eq run.resolved_plan_digest manifest.resolved_plan_digest))
      (EvidenceError.inconsistent_record "run.json")

-- the derived `PartialEq`
unfoldable pub attempt_status_eq : AttemptStatus → AttemptStatus → Bool
attempt_status_eq AttemptStatus.created AttemptStatus.created = true
attempt_status_eq AttemptStatus.preparing AttemptStatus.preparing = true
attempt_status_eq AttemptStatus.running AttemptStatus.running = true
attempt_status_eq AttemptStatus.succeeded AttemptStatus.succeeded = true
attempt_status_eq AttemptStatus.failed AttemptStatus.failed = true
attempt_status_eq AttemptStatus.interrupted AttemptStatus.interrupted = true
attempt_status_eq _ _ = false

-- `none` is the `unreachable!`
unfoldable pub expected_attempt_status : RunState → Option AttemptStatus
expected_attempt_status RunState.succeeded = some AttemptStatus.succeeded
expected_attempt_status RunState.failed = some AttemptStatus.failed
expected_attempt_status RunState.interrupted = some AttemptStatus.interrupted
expected_attempt_status _ = none

unfoldable pub check_attempt : AttemptRecord → EvidenceManifest → Option Checked
check_attempt attempt manifest = elim (expected_attempt_status manifest.run_status) [
  | none ↦ none
  | some expected ↦ some (
      fail_if
        (not (str_eq attempt.run_id manifest.run_id)
          || not (attempt.attempt_number == 1)
          || not (attempt_status_eq attempt.status expected))
        (EvidenceError.inconsistent_record "attempts/0001/attempt.json"))
]

abbrev pub check_event : EvidenceManifest → Result LifecycleEvent EvidenceError → Checked
check_event manifest (err e) = err e
check_event manifest (ok event) =
    fail_if (not (str_eq event.run_id manifest.run_id) || not (event.attempt_number == 1))
      (EvidenceError.inconsistent_record "events.jsonl")

-- the loop over the lines that are not empty
unfoldable pub check_events :
    (List ℕ → Result LifecycleEvent String) → EvidenceManifest → List (List ℕ) → Checked
check_events decode manifest [] = ok tt
check_events decode manifest (line ∷ rest) =
    elim (check_event manifest (decoded_as "events.jsonl" (decode line))) [
      | ok u ↦ check_events decode manifest rest
      | err e ↦ err e
    ]
