-- ===== src/Run/Persist.antt =====
-- `persist_run_transition`, `persist_attempt_status`, `write_snapshots` and
-- `persist_allocated_failure` of crates/benchplane-core/src/run.rs.
use benchplane.Base.{
  ℕ, ◌+◌, String, Bool, true, false, Option, none, some, ◌||◌, str_eq, if◌then◌else◌, ok, err,
}
use benchplane.Schema.Evidence.{
  RunState, AttemptStatus, FailureRecord, LifecycleEvent, RunRecord, AttemptRecord, is_terminal,
  run_state_eq, error_evidence_finalization_failed, error_io_operation_failed,
}
use benchplane.Lifecycle.{transition}
use benchplane.Run.State.{
  RunError, lifecycle, State, Action, ◌>>=◌, ◌>>◌, modify, now, write, append_event,
}

-- `lifecycle.transition(..)?`
unfoldable pub advance : RunState → String → Option FailureRecord → Action RunError LifecycleEvent
advance to recorded_at failure s =
    let (r, l) = transition s.lifecycle to recorded_at failure in
    elim r [
      | ok event ↦ (ok event, record s { lifecycle = l })
      | err e ↦ (err (lifecycle e), record s { lifecycle = l })
    ]

abbrev pub ended : RunRecord → String → Option FailureRecord → RunRecord
ended r recorded_at failure = record r { completed_at = some recorded_at; failure = failure }

-- the record after a transition
unfoldable pub with_status : RunRecord → RunState → String → Option FailureRecord → RunRecord
unfolding is_terminal
with_status r to recorded_at failure =
    let moved = record r { run_status = to; updated_at = recorded_at } in
    if is_terminal to then ended moved recorded_at failure else moved

abbrev is_ended : AttemptStatus → Bool
is_ended AttemptStatus.succeeded = true
is_ended AttemptStatus.failed = true
is_ended AttemptStatus.interrupted = true
is_ended _ = false

unfoldable pub with_attempt_status :
    AttemptRecord → AttemptStatus → String → Option FailureRecord → AttemptRecord
with_attempt_status a status recorded_at failure =
    let moved = record a { status = status; updated_at = recorded_at } in
    if is_ended status
    then record moved { completed_at = some recorded_at; failure = failure }
    else moved

-- `matches!` on the phase
abbrev is_finalization : String → Bool
is_finalization phase =
    str_eq phase "finalizing"
    || str_eq phase "checksumming"
    || str_eq phase "verifying"
    || str_eq phase "publishing"

unfoldable pub allocated_failure : String → String → FailureRecord
allocated_failure phase message = record {
  phase = phase;
  code =
      if is_finalization phase
      then error_evidence_finalization_failed
      else error_io_operation_failed;
  message = message;
  retryable = false;
  attempt_number = 1;
}

-- `matches!` on the state
abbrev pub is_under_way : RunState → Bool
is_under_way RunState.preparing = true
is_under_way RunState.running = true
is_under_way RunState.collecting = true
is_under_way _ = false

-- `let _ =`: what an action leaves behind, whether it fails or not
abbrev pub ignoring : {A : Type 0} → Action RunError A → State → State
ignoring m s = (m s).1

module _ (clock : ℕ → String) (answers : ℕ → Option RunError) where
  unfoldable pub write_run : Action RunError (Unit {0})
  write_run s = write clock answers (λ f. record f { run = some s.run_record }) s

  unfoldable pub write_attempt : Action RunError (Unit {0})
  write_attempt s = write clock answers (λ f. record f { attempt = some s.attempt_record }) s

  unfoldable pub persist_run_transition :
      RunState → Option FailureRecord → Action RunError (Unit {0})
  unfolding advance write_run with_status
  persist_run_transition to failure = do
    recorded_at ← now clock answers
    event ← advance to recorded_at failure
    append_event clock answers event
    modify (λ s. record s { run_record = with_status s.run_record to event.recorded_at failure })
    write_run

  unfoldable pub persist_attempt_status :
      AttemptStatus → Option FailureRecord → Action RunError (Unit {0})
  unfolding write_attempt with_attempt_status
  persist_attempt_status status failure = do
    recorded_at ← now clock answers
    modify (λ s. record s {
      attempt_record = with_attempt_status s.attempt_record status recorded_at failure;
    })
    write_attempt

  unfoldable pub write_snapshots : Action RunError (Unit {0})
  unfolding write_run write_attempt
  write_snapshots = write_run >> write_attempt

  unfoldable pub fail_lifecycle : FailureRecord → State → State
  fail_lifecycle failure s =
      let t =
        if is_under_way s.lifecycle.state
        then ignoring (persist_run_transition RunState.finalizing none) s
        else s in
      if run_state_eq t.lifecycle.state RunState.finalizing
      then ignoring (persist_run_transition RunState.failed (some failure)) t
      else t

  unfoldable pub persist_allocated_failure : String → String → State → State
  persist_allocated_failure phase message s =
      let failure = allocated_failure phase message in
      let t = fail_lifecycle failure s in
      let u = record t {
        run_record = record t.run_record { updated_at = clock t.calls; failure = some failure };
        calls = t.calls + 1;
      } in
      ignoring write_attempt (ignoring write_run u)
