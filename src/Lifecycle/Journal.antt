-- ===== src/Lifecycle/Journal.antt =====
-- The events that a run records: what `transition` returns over any sequence of requests, the
-- rejected ones included.
use benchplane.Base.{
  ℕ, ◌+◌, ◌≤◌, String, true, false, ◌≡◌, refl, sym, subst, Option, none, some, List, [], ◌∷◌,
  length, Bool-cases, inl, inr, Result, ok, err, arith,
}
use benchplane.Schema.Evidence.{RunState, FailureRecord, LifecycleEvent, is_terminal}
use benchplane.Lifecycle.{Lifecycle, LifecycleError, new, transition, is_valid_transition}
use benchplane.Lifecycle.Graph.{rank, rank-transition}

-- the arguments of one call of `transition`
pub record Request : Type 0 where
  pub to : RunState
  pub recorded_at : String
  pub failure : Option FailureRecord

-- the journal after a call: an error appends nothing
abbrev pub append_ok :
    Result LifecycleEvent LifecycleError → List LifecycleEvent → List LifecycleEvent
append_ok (ok event) later = event ∷ later
append_ok (err e) later = later

pub drive : Lifecycle → List Request → List LifecycleEvent × Lifecycle
drive l [] = ([], l)
drive l (r ∷ rs) =
    let (result, l') = transition l r.to r.recorded_at r.failure in
    let (events, end) = drive l' rs in (append_ok result events, end)

-- The events of one run and attempt, numbered from `n` on, each from the state that the one
-- before entered, along valid transitions up to the state of `end`.
abbrev pub Follows : Lifecycle → List LifecycleEvent → Lifecycle → Type 0
Follows l [] end = l ≡ end
Follows l (e ∷ events) end =
    (e.run_id ≡ l.run_id)
    × (e.attempt_number ≡ l.attempt_number)
    × (e.sequence ≡ l.next_sequence)
    × (e.from_state ≡ some l.state)
    × (is_valid_transition l.state e.to_state ≡ true)
    × Follows (record l { state = e.to_state; next_sequence = l.next_sequence + 1 }) events end

-- A rejected transition leaves the lifecycle as it was and names both states; an accepted one
-- moves to the requested state, takes the next number and records where it came from.
pub transition_cases :
    (l : Lifecycle) (to : RunState) (recorded_at : String) (failure : Option FailureRecord)
    → (is_valid_transition l.state to ≡ false
        → transition l to recorded_at failure
          ≡ (err (LifecycleError.invalid_transition l.state to), l))
      × (is_valid_transition l.state to ≡ true
          → (e : LifecycleEvent) × (transition l to recorded_at failure
              ≡ (ok e, record l { state = to; next_sequence = l.next_sequence + 1 }))
            × Follows l (e ∷ []) (record l { state = to; next_sequence = l.next_sequence + 1 })
            × (e.to_state ≡ to)
            × (e.recorded_at ≡ recorded_at)
            × (e.failure ≡ failure))
unfolding transition
transition_cases l to at failure = (
  λ h. rw (h, transition) refl,
  λ h. (
    record {
      run_id = l.run_id;
      sequence = l.next_sequence;
      recorded_at = at;
      from_state = some l.state;
      to_state = to;
      attempt_number = l.attempt_number;
      failure = failure;
    },
    rw (h, transition) refl,
    (refl, refl, refl, refl, h, refl),
    refl,
    refl,
    refl,
  ),
)

pub drive-Follows : (l : Lifecycle) (rs : List Request) → Follows l (drive l rs).0 (drive l rs).1
unfolding drive
drive-Follows l [] = refl
drive-Follows l (r ∷ rs) =
    let continues : Result LifecycleEvent LifecycleError × Lifecycle → Type 0 =
      λ t. Follows l (append_ok t.0 (drive t.1 rs).0) (drive t.1 rs).1 in
    let cases = transition_cases l r.to r.recorded_at r.failure in
    elim (Bool-cases (is_valid_transition l.state r.to)) [
      | inl h ↦
          let (e, moved, first, to, _, _) = cases.1 h in
          subst continues (sym moved) (
            first.0,
            first.1,
            first.2,
            first.3,
            first.4,
            rw to
                (drive-Follows (record l { state = r.to; next_sequence = l.next_sequence + 1 }) rs),
          )
      | inr h ↦ subst continues (sym (cases.0 h)) (drive-Follows l rs)
    ]

pub rank-drive :
    (l : Lifecycle) (rs : List Request)
    → length (drive l rs).0 + rank l.state ≤ rank (drive l rs).1.state
unfolding drive transition
rank-drive l [] = omega arith
rank-drive l (r ∷ rs) = ground (
  arith,
  rank-transition l.state r.to,
  rank-drive l rs,
  rank-drive (record l { state = r.to; next_sequence = l.next_sequence + 1 }) rs,
)

rank_le : (s : RunState) → rank s ≤ 5
unfolding rank
rank_le s = ground arith

transition_terminal :
    (l : Lifecycle) (to : RunState) (at : String) (failure : Option FailureRecord)
    → is_terminal l.state ≡ true
    → (transition l to at failure) ≡ (err (LifecycleError.invalid_transition l.state to), l)
unfolding transition is_terminal is_valid_transition
transition_terminal l to at failure h = ground arith

-- In a terminal state no sequence of requests records an event or changes the lifecycle.
pub drive_terminal :
    (l : Lifecycle) (rs : List Request) → is_terminal l.state ≡ true → drive l rs ≡ ([], l)
unfolding drive
drive_terminal l [] h = refl
drive_terminal l (r ∷ rs) h =
    rw (transition_terminal l r.to r.recorded_at r.failure h) (rw (drive_terminal l rs h) refl)

-- From `new`, whatever transitions are requested, the journal is one chain of valid transitions
-- numbered 1, 2, 3, …; it has six events at most, so the sequence number never wraps.
pub journal_consistent :
    (run_id recorded_at : String) (attempt : ℕ) (rs : List Request)
    → let (l, e) = new run_id recorded_at attempt in
      (e.sequence ≡ 1)
      × (e.from_state ≡ none)
      × (e.to_state ≡ RunState.created)
      × (e.run_id ≡ run_id)
      × (e.attempt_number ≡ attempt)
      × Follows l (drive l rs).0 (drive l rs).1
      × (length (e ∷ (drive l rs).0) ≤ 6)
unfolding new rank
journal_consistent run_id at n rs =
    let l = (new run_id at n).0 in
    (
      refl,
      refl,
      refl,
      refl,
      refl,
      drive-Follows l rs,
      omega (arith, rank-drive l rs, rank_le (drive l rs).1.state),
    )
