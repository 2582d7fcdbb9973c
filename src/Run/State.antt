-- ===== src/Run/State.antt =====
-- The state that a run of crates/benchplane-core/src/run.rs changes: its variables and the files of
-- its staging directory, and the calls of the clock and of the operating system.
use benchplane.Base.{
  ℕ, ◌+◌, String, Bool, false, Option, none, some, List, [], ◌∷◌, ◌++◌, Result, ok, err,
}
use benchplane.Schema.Experiment.{ResolvedExperiment}
use benchplane.Schema.Evidence.{
  RunRecord, AttemptRecord, AttemptProvenance, AttemptResources, LifecycleEvent,
}
use benchplane.Schema.Measurement.{EvidenceManifest, ValidityResult, RunSummary, MeasurementRecord}
use benchplane.Lifecycle.{Lifecycle, LifecycleError}
use benchplane.Evidence.Error.{EvidenceError}

-- `RunError`, without the errors of the steps before the run has its directory
pub data RunError : Type 0 where
  -- path, source
  io : String → String → RunError
  lifecycle : LifecycleError → RunError
  -- record, source
  serialization : String → String → RunError
  evidence : EvidenceError → RunError
  publication_conflict : String → RunError

-- What is written into a file without an atomic replacement: a line that is appended, or the
-- content of a new file. Where the write fails, a part of it, perhaps nothing, may stand there.
pub data Line (A : Type 0) : Type 0 where
  whole : A → Line A
  torn : A → Line A

-- The files by their content; `none` is a file that is not there. A file that is replaced
-- atomically keeps its content where the replacement fails; the temporary file beside it is left
-- out.
pub record Staging : Type 0 where
  pub attempts : Bool
  pub experiment : Option (Line (List ℕ))
  pub plan : Option ResolvedExperiment
  pub events : Option (List (Line LifecycleEvent))
  pub measurements : Option (List (Line MeasurementRecord))
  pub run : Option RunRecord
  pub attempt : Option AttemptRecord
  pub provenance : Option AttemptProvenance
  pub resources : Option AttemptResources
  pub validity : Option ValidityResult
  pub summary : Option RunSummary
  pub manifest : Option EvidenceManifest
  pub checksums : Bool
  -- renamed to its place under runs/
  pub published : Bool

abbrev pub empty_staging : Staging
empty_staging = record {
  attempts = false;
  experiment = none;
  plan = none;
  events = none;
  measurements = none;
  run = none;
  attempt = none;
  provenance = none;
  resources = none;
  validity = none;
  summary = none;
  manifest = none;
  checksums = false;
  published = false;
}

-- `calls` counts the calls of the clock and of the operating system.
pub record State : Type 0 where
  pub lifecycle : Lifecycle
  pub run_record : RunRecord
  pub attempt_record : AttemptRecord
  pub staging : Staging
  pub calls : ℕ

-- A step: it changes the state, also where it fails.
abbrev pub Action : Type 0 → Type 0 → Type 0
Action E A = State → Result A E × State

module _ {E A B : Type 0} where
  abbrev pub after : (A → Action E B) → Result A E × State → Result B E × State
  after f (ok a, t) = f a t
  after f (err e, t) = (err e, t)

  infixl 5 ◌>>=◌
  unfoldable pub ◌>>=◌ : Action E A → (A → Action E B) → Action E B
  ◌>>=◌ m f s = after f (m s)

module _ {E B : Type 0} where
  infixl 5 ◌>>◌
  abbrev pub ◌>>◌ : Action E (Unit {0}) → Action E B → Action E B
  m >> k = m >>= λ _. k

module _ {E A : Type 0} where
  abbrev pub pure : A → Action E A
  pure a s = (ok a, s)

abbrev pub modify : {E : Type 0} → (State → State) → Action E (Unit {0})
modify f s = (ok tt, f s)

-- `append_json_line` to a file that is there
abbrev pub appended : {A : Type 0} → Option (List (Line A)) → Line A → Option (List (Line A))
appended none line = none
appended (some lines) line = some (lines ++ line ∷ [])

-- The clock's answer to a call, and the operating system's: `none` where the call succeeds.
module _ (clock : ℕ → String) (answers : ℕ → Option RunError) where
  unfoldable pub now : Action RunError String
  now s = (ok (clock s.calls), record s { calls = s.calls + 1 })

  -- a call whose effect on the files is given for success and for failure
  unfoldable pub call : (Staging → Staging) → (Staging → Staging) → Action RunError (Unit {0})
  call done failed s = elim (answers s.calls) [
    | none ↦ (ok tt, record s { staging = done s.staging; calls = s.calls + 1 })
    | some e ↦ (err e, record s { staging = failed s.staging; calls = s.calls + 1 })
  ]

  -- `write_json_atomic`, `create_directory`, the creation of an empty file, and the other calls that
  -- leave the files as they are where they fail
  unfoldable pub write : (Staging → Staging) → Action RunError (Unit {0})
  unfolding call
  write done = call done (λ f. f)

  -- `write_bytes` of experiment.yaml: the file is created and then filled
  unfoldable pub write_experiment : List ℕ → Action RunError (Unit {0})
  unfolding call
  write_experiment bytes =
      call (λ f. record f { experiment = some (whole bytes) })
        (λ f. record f { experiment = some (torn bytes) })

  unfoldable pub append_event : LifecycleEvent → Action RunError (Unit {0})
  unfolding call
  append_event event =
      call (λ f. record f { events = appended f.events (whole event) })
        (λ f. record f { events = appended f.events (torn event) })

  unfoldable pub append_measurement : MeasurementRecord → Action RunError (Unit {0})
  unfolding call
  append_measurement m =
      call (λ f. record f { measurements = appended f.measurements (whole m) })
        (λ f. record f { measurements = appended f.measurements (torn m) })
