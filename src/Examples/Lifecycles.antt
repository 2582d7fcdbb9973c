-- ===== src/Examples/Lifecycles.antt =====
-- The lifecycle, at a journal with a rejected request.
use benchplane.Base.{◌↔◌, ◌+◌, ◌≡◌, ◌≤◌, refl, true, none, List, [], ◌∷◌, length}
use benchplane.Schema.Evidence.{RunState, LifecycleEvent, is_terminal}
use benchplane.Lifecycle.{Lifecycle, new, is_valid_transition}
use benchplane.Lifecycle.Graph.{◌⟶◌, is_valid_transition_iff}
use benchplane.Lifecycle.Journal.{Request, Follows, drive, drive_terminal, journal_consistent}

abbrev request : RunState → Request
request to = record { to = to; recorded_at = "2026-01-01T00:00:01Z"; failure = none }

-- the second request skips a state and is rejected
abbrev requests : List Request
requests = request RunState.preparing ∷ request RunState.collecting ∷ request RunState.running ∷ []

abbrev running : Lifecycle
running = record {
  run_id = "run-1";
  state = RunState.running;
  next_sequence = 4;
  attempt_number = 1;
}

abbrev succeeded : Lifecycle
succeeded = record running { state = RunState.succeeded; next_sequence = 7 }

abbrev begun : Lifecycle × LifecycleEvent
begun = new "run-1" "2026-01-01T00:00:00Z" 1

journal_consistent_example :
    (begun.1.sequence ≡ 1)
    × (begun.1.from_state ≡ none)
    × (begun.1.to_state ≡ RunState.created)
    × (begun.1.run_id ≡ "run-1")
    × (begun.1.attempt_number ≡ 1)
    × Follows begun.0 (drive begun.0 requests).0 (drive begun.0 requests).1
    × (length (begun.1 ∷ (drive begun.0 requests).0) ≤ 6)
journal_consistent_example = journal_consistent "run-1" "2026-01-01T00:00:00Z" 1 requests

abbrev collecting : Lifecycle
collecting = record running {
  state = RunState.collecting;
  next_sequence = running.next_sequence + 1;
}

succeeded_terminal : is_terminal succeeded.state ≡ true
unfolding is_terminal
succeeded_terminal = refl

drive_terminal_example : drive succeeded requests ≡ ([], succeeded)
drive_terminal_example = drive_terminal succeeded requests succeeded_terminal

is_valid_transition_iff_example :
    (is_valid_transition RunState.preparing RunState.finalizing ≡ true)
    ↔ (RunState.preparing ⟶ RunState.finalizing)
is_valid_transition_iff_example = is_valid_transition_iff RunState.preparing RunState.finalizing
