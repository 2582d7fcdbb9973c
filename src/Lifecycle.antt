-- ===== src/Lifecycle.antt =====
-- crates/benchplane-core/src/lifecycle.rs: the state of a run and its journal events. A method
-- on `&mut self` returns its result and the new record; a timestamp is an argument, as in the
-- source.
pub mod Graph
pub mod Journal
use benchplane.Base.{ℕ, ◌+◌, String, Bool, true, false, Option, none, some, Result, ok, err}
use benchplane.Schema.Evidence.{
  RunState, created, preparing, running, collecting, finalizing, succeeded, failed, interrupted,
  FailureRecord, LifecycleEvent,
}

pub data LifecycleError : Type 0 where
  invalid_transition : RunState → RunState → LifecycleError

pub record Lifecycle : Type 0 where
  pub run_id : String
  pub state : RunState
  pub next_sequence : ℕ  -- u64
  pub attempt_number : ℕ  -- u32

unfoldable pub new : String → String → ℕ → Lifecycle × LifecycleEvent
new run_id recorded_at attempt_number = (
  record {
    run_id = run_id;
    state = RunState.created;
    next_sequence = 2;
    attempt_number = attempt_number;
  },
  record {
    run_id = run_id;
    sequence = 1;
    recorded_at = recorded_at;
    from_state = none;
    to_state = RunState.created;
    attempt_number = attempt_number;
    failure = none;
  },
)

unfoldable pub is_valid_transition : RunState → RunState → Bool
is_valid_transition RunState.created RunState.preparing = true
is_valid_transition RunState.preparing RunState.running = true
is_valid_transition RunState.preparing RunState.finalizing = true
is_valid_transition RunState.running RunState.collecting = true
is_valid_transition RunState.running RunState.finalizing = true
is_valid_transition RunState.collecting RunState.finalizing = true
is_valid_transition RunState.finalizing RunState.succeeded = true
is_valid_transition RunState.finalizing RunState.failed = true
is_valid_transition RunState.finalizing RunState.interrupted = true
is_valid_transition _ _ = false

unfoldable pub transition :
    Lifecycle
    → RunState
    → String
    → Option FailureRecord
    → Result LifecycleEvent LifecycleError × Lifecycle
transition l to recorded_at failure = elim (is_valid_transition l.state to) [
  | false ↦ (err (invalid_transition l.state to), l)
  | true ↦ (
    ok (record {
      run_id = l.run_id;
      sequence = l.next_sequence;
      recorded_at = recorded_at;
      from_state = some l.state;
      to_state = to;
      attempt_number = l.attempt_number;
      failure = failure;
    }),
    record l { state = to; next_sequence = l.next_sequence + 1 },
  )
]
