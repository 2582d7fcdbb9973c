-- ===== src/Lifecycle/Graph.antt =====
-- The documented diagram of run states (docs/experiment-lifecycle.md) and the code's test.
use benchplane.Base.{ℕ, ◌≤◌, ◌<◌, true, ◌≡◌, refl, ◌↔◌, arith}
use benchplane.Schema.Evidence.{RunState, is_terminal}
use benchplane.Lifecycle.{is_valid_transition}

infix 40 ◌⟶◌
pub data ◌⟶◌ : RunState → RunState → Type 0 where
  prepare : RunState.created ⟶ RunState.preparing
  start : RunState.preparing ⟶ RunState.running
  give_up : RunState.preparing ⟶ RunState.finalizing
  collect : RunState.running ⟶ RunState.collecting
  finalize_running : RunState.running ⟶ RunState.finalizing
  finalize_collecting : RunState.collecting ⟶ RunState.finalizing
  succeed : RunState.finalizing ⟶ RunState.succeeded
  fail : RunState.finalizing ⟶ RunState.failed
  interrupt : RunState.finalizing ⟶ RunState.interrupted

ruleset edges = (
  prepare, start, give_up, collect, finalize_running, finalize_collecting, succeed, fail, interrupt,
)

valid_of_edge : {s t : RunState} → s ⟶ t → is_valid_transition s t ≡ true
unfolding is_valid_transition
valid_of_edge prepare = refl
valid_of_edge start = refl
valid_of_edge give_up = refl
valid_of_edge collect = refl
valid_of_edge finalize_running = refl
valid_of_edge finalize_collecting = refl
valid_of_edge succeed = refl
valid_of_edge fail = refl
valid_of_edge interrupt = refl

edge_of_valid : (s t : RunState) → is_valid_transition s t ≡ true → s ⟶ t
unfolding is_valid_transition
edge_of_valid s t h = grind (arith, edges)

-- The code's test accepts exactly the edges of the documented diagram.
pub is_valid_transition_iff : (s t : RunState) → (is_valid_transition s t ≡ true) ↔ (s ⟶ t)
is_valid_transition_iff s t = (edge_of_valid s t, valid_of_edge)

-- how far along a state is
unfoldable pub rank : RunState → ℕ
rank RunState.created = 0
rank RunState.preparing = 1
rank RunState.running = 2
rank RunState.collecting = 3
rank RunState.finalizing = 4
rank _ = 5

pub rank-transition :
    (s t : RunState) → is_valid_transition s t ≡ true → (rank s < rank t) × (rank t ≤ 5)
unfolding is_valid_transition rank
rank-transition s t h = ground arith

pub terminal_of_rank : (s : RunState) → (is_terminal s ≡ true) ↔ (rank s ≡ 5)
unfolding is_terminal rank
terminal_of_rank s = ground arith
