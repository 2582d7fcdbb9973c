-- ===== src/Run/Sequence.antt =====
-- `run_experiment_with_services` of crates/benchplane-core/src/run.rs from the allocation of the run
-- on: the steps in their order, and what is done where one fails. The hooks of the tests, the
-- checksum file and the verification of the staging directory are calls with an answer; the
-- chosen execution's output is an argument.
use benchplane.Base.{
  ℕ, String, Bool, true, false, Option, none, some, List, [], ◌∷◌, Result, ok, err, if◌then◌else◌,
}
use benchplane.Schema.Experiment.{ResolvedExperiment}
use benchplane.Schema.Evidence.{
  RunState, AttemptStatus, RunRecord, AttemptRecord, AttemptProvenance, NvidiaGpuProvenance,
  AttemptResources, ProcessResources, ResourceScope, LifecycleEvent, run_state_eq,
  attempt_resources_format_v1,
}
use benchplane.Schema.Measurement.{ValidityResult, RunSummary, RunResult, MeasurementRecord}
use benchplane.Lifecycle.{new}
use benchplane.Execution.{ExecutionOutput, evaluate_validity, summarize}
use benchplane.Provenance.Capture.{Environment, capture, attach_nvidia}
use benchplane.Evidence.Entries.{expected_attempt_status}
use benchplane.Run.{manifest_of}
use benchplane.Run.State.{
  RunError, publication_conflict, Staging, empty_staging, State, Action, ◌>>=◌, ◌>>◌, pure, write,
  write_experiment, append_event, append_measurement,
}
use benchplane.Run.Persist.{
  persist_run_transition, persist_attempt_status, write_snapshots, persist_allocated_failure,
}

-- `AllocatedFailure`, or a panic
pub data Stop : Type 0 where
  -- phase, source
  failure : String → RunError → Stop
  panic : Stop

-- `map_err` to the phase
abbrev pub located : {A : Type 0} → String → Result A RunError × State → Result A Stop × State
located phase (ok a, t) = (ok a, t)
located phase (err e, t) = (err (failure phase e), t)

unfoldable pub at : {A : Type 0} → Action RunError A → String → Action Stop A
at m phase s = located phase (m s)

abbrev pub or_panic : {A : Type 0} → Option A → Action Stop A
or_panic none s = (err panic, s)
or_panic (some a) s = (ok a, s)

-- `expect`
abbrev pub success : {A : Type 0} → Result A String → Option A
success (ok a) = some a
success (err message) = none

-- `if final_path.exists()`
abbrev pub conflict : Bool → String → Action Stop (Unit {0})
conflict true final_path s = (err (failure "publishing" (publication_conflict final_path)), s)
conflict false final_path s = (ok tt, s)

-- the records and the first event of a run, created at a time
abbrev pub first_record : String → String → ResolvedExperiment → RunRecord
first_record run_id created_at plan = record {
  run_id = run_id;
  run_status = RunState.created;
  created_at = created_at;
  updated_at = created_at;
  completed_at = none;
  experiment_digest = plan.experiment_digest;
  resolved_plan_digest = plan.resolved_plan_digest;
  attempt_count = 1;
  failure = none;
}

abbrev pub first_attempt : String → String → AttemptRecord
first_attempt run_id created_at = record {
  run_id = run_id;
  attempt_number = 1;
  status = AttemptStatus.created;
  started_at = created_at;
  updated_at = created_at;
  completed_at = none;
  failure = none;
}

unfoldable pub allocated : String → String → ResolvedExperiment → State
unfolding new
allocated run_id created_at plan = record {
  lifecycle = (new run_id created_at 1).0;
  run_record = first_record run_id created_at plan;
  attempt_record = first_attempt run_id created_at;
  staging = empty_staging;
  calls = 0;
}

abbrev pub resources_of : String → ProcessResources → AttemptResources
resources_of run_id r = record {
  format = attempt_resources_format_v1;
  run_id = run_id;
  attempt_number = 1;
  scope = ResourceScope.helper_process_lifetime;
  cpu_time_micros = r.cpu_time_micros;
  peak_rss_bytes = r.peak_rss_bytes;
}

abbrev pub result_of :
    ResolvedExperiment
    → ExecutionOutput
    → ValidityResult
    → RunSummary
    → String
    → String
    → String
    → RunResult
result_of plan output validity summary run_id final_path digest = record {
  run_id = run_id;
  run_state = output.terminal_state;
  validity_status = validity.status;
  attempt_count = 1;
  sample_count = summary.sample_count;
  latency = summary.latency;
  mean_throughput_milli_requests_per_second = summary.mean_throughput_milli_requests_per_second;
  resources = output.resources;
  bundle_path = final_path;
  experiment_digest = plan.experiment_digest;
  resolved_plan_digest = plan.resolved_plan_digest;
  evidence_digest = digest;
  failure = output.failure;
}

module _ (clock : ℕ → String) (answers : ℕ → Option RunError) where
  abbrev put : (Staging → Staging) → String → Action Stop (Unit {0})
  put done phase = at (write clock answers done) phase

  abbrev move : RunState → String → Action Stop (Unit {0})
  move to phase = at (persist_run_transition clock answers to none) phase

  unfoldable pub initialize : List ℕ → ResolvedExperiment → LifecycleEvent → Action Stop (Unit {0})
  initialize bytes plan event = do
    put (λ f. record f { attempts = true }) "initializing"
    at (write_experiment clock answers bytes) "initializing"
    put (λ f. record f { plan = some plan }) "initializing"
    put (λ f. record f { events = some [] }) "initializing"
    at (append_event clock answers event) "initializing"
    put (λ f. record f { measurements = some [] }) "initializing"
    at (write_snapshots clock answers) "initializing"

  unfoldable pub prepare : Environment → String → ResolvedExperiment → Action Stop AttemptProvenance
  prepare env run_id plan = do
    move RunState.preparing "preparing"
    at (persist_attempt_status clock answers AttemptStatus.preparing none) "preparing"
    provenance ← or_panic (capture env run_id plan)
    put (λ f. record f { provenance = some provenance }) "preparing"
    move RunState.running "running"
    at (persist_attempt_status clock answers AttemptStatus.running none) "running"
    pure provenance

  unfoldable pub record_provenance :
      AttemptProvenance → Option NvidiaGpuProvenance → Action Stop (Unit {0})
  record_provenance provenance none = pure tt
  record_provenance provenance (some nvidia) = do
    p ← or_panic (success (attach_nvidia provenance nvidia))
    put (λ f. record f { provenance = some p }) "recordingProvenance"

  unfoldable pub record_resources : String → Option ProcessResources → Action Stop (Unit {0})
  record_resources run_id none = pure tt
  record_resources run_id (some r) =
      put (λ f. record f { resources = some (resources_of run_id r) }) "recordingResources"

  unfoldable pub record_measurements : List MeasurementRecord → Action Stop (Unit {0})
  record_measurements [] = pure tt
  record_measurements (m ∷ rest) =
      at (append_measurement clock answers m) "recordingMeasurements" >> record_measurements rest

  unfoldable pub collect : RunState → Action Stop (Unit {0})
  collect terminal =
      if run_state_eq terminal RunState.succeeded
      then move RunState.collecting "collecting"
      else pure tt

  -- from the execution to the last transition
  unfoldable pub record_execution :
      String → ExecutionOutput → AttemptProvenance → Action Stop (Unit {0})
  record_execution run_id output provenance = do
    record_provenance provenance output.nvidia_gpu
    status ← or_panic (expected_attempt_status output.terminal_state)
    at (persist_attempt_status clock answers status output.failure) "running"
    record_resources run_id output.resources
    put (λ f. f) "recordingMeasurements"
    record_measurements output.measurements
    collect output.terminal_state

  unfoldable pub finalize :
      String → ResolvedExperiment → ExecutionOutput → Action Stop (ValidityResult × RunSummary)
  finalize run_id plan output = do
    validity ← or_panic (evaluate_validity plan output run_id)
    summary ← or_panic (summarize plan output validity run_id)
    move RunState.finalizing "finalizing"
    at (persist_run_transition clock answers output.terminal_state output.failure) "finalizing"
    put (λ f. record f { validity = some validity }) "finalizing"
    put (λ f. record f { summary = some summary }) "finalizing"
    put (λ f. record f { manifest = some (manifest_of plan output validity run_id) }) "finalizing"
    pure (validity, summary)

  -- the checksum file, the verification of the staging directory, and the renaming
  unfoldable pub publish : Bool → String → Action Stop (Unit {0})
  publish exists final_path = do
    put (λ f. f) "checksumming"
    put (λ f. record f { checksums = true }) "checksumming"
    put (λ f. f) "verifying"
    put (λ f. f) "verifying"
    conflict exists final_path
    put (λ f. f) "publishing"
    put (λ f. record f { published = true }) "publishing"

  -- the closure; `digest` is the digest of the checksum file
  unfoldable pub run_allocated :
      Environment
      → List ℕ
      → ResolvedExperiment
      → ExecutionOutput
      → String
      → String
      → Bool
      → String
      → String
      → Action Stop RunResult
  unfolding new
  run_allocated env bytes plan output run_id created_at exists final_path digest = do
    initialize bytes plan (new run_id created_at 1).1
    provenance ← prepare env run_id plan
    record_execution run_id output provenance
    (validity, summary) ← finalize run_id plan output
    publish exists final_path
    pure (result_of plan output validity summary run_id final_path digest)

  -- the `match` on the closure's outcome; a panic leaves everything as it is
  unfoldable pub settle :
      (RunError → String) → Result RunResult Stop × State → Result RunResult Stop × State
  settle shown (ok result, s) = (ok result, s)
  settle shown (err panic, s) = (err panic, s)
  settle shown (err (failure phase e), s) =
      (err (failure phase e), persist_allocated_failure clock answers phase (shown e) s)
