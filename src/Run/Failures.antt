-- ===== src/Run/Failures.antt =====
-- What `persist_allocated_failure` of crates/benchplane-core/src/run.rs leaves of a run that failed.
use benchplane.Base.{
  ℕ, ◌+◌, ◌≡◌, sym, ap, subst, ◌∙◌, ◌⊎◌, inl, inr, String, true, false, Option, none, some, arith,
  Option-cases, Bool-cases,
}
use benchplane.Schema.Evidence.{RunState, RunRecord, FailureRecord, is_terminal, run_state_eq}
use benchplane.Lifecycle.{Lifecycle, transition, is_valid_transition}
use benchplane.Run.State.{RunError, State, ◌>>=◌, now, call, write, append_event}
use benchplane.Run.Persist.{
  allocated_failure, is_under_way, ignoring, write_run, write_attempt, persist_run_transition,
  fail_lifecycle, persist_allocated_failure,
}

module _ (clock : ℕ → String) (answers : ℕ → Option RunError) where
  -- A valid transition moves the lifecycle also where it is not persisted.
  transition_moves :
      (to : RunState) (problem : Option FailureRecord) (s : State)
      → is_valid_transition s.lifecycle.state to ≡ true
      → let t = ignoring (persist_run_transition clock answers to problem) s in
        (t.lifecycle.state ≡ to) × (t.staging.published ≡ s.staging.published)
  unfolding persist_run_transition ◌>>=◌ now append_event transition write_run write call
  transition_moves to problem s valid = elim (Option-cases (answers (s.calls + 1))) [
    | inr (e, bad) ↦ ground arith
    | inl good ↦ elim (Option-cases (answers (s.calls + 1 + 1))) [
      | inr (e, bad) ↦ ground arith
      | inl fine ↦ ground arith
    ]
  ]

  -- A run ends where it began or in a terminal state, and nothing is published on the way.
  abbrev pub Settles : State → State → Type 0
  Settles s t =
      (((s.lifecycle.state ≡ RunState.created) × (t.lifecycle.state ≡ RunState.created))
        ⊎ (is_terminal t.lifecycle.state ≡ true))
      × (t.staging.published ≡ s.staging.published)

  under_way-Settles :
      (problem : FailureRecord) (s : State)
      → is_under_way s.lifecycle.state ≡ true
      → Settles s (fail_lifecycle clock answers problem s)
  unfolding fail_lifecycle is_terminal run_state_eq is_valid_transition
  under_way-Settles problem s h =
      let u : State = ignoring (persist_run_transition clock answers RunState.finalizing none) s in
      ground (
        arith,
        transition_moves RunState.finalizing none s,
        transition_moves RunState.failed (some problem) u,
      )

  idle-Settles :
      (problem : FailureRecord) (s : State)
      → is_under_way s.lifecycle.state ≡ false
      → run_state_eq s.lifecycle.state RunState.finalizing ≡ false
      → Settles s (fail_lifecycle clock answers problem s)
  unfolding fail_lifecycle is_terminal run_state_eq
  idle-Settles problem s h other = ground arith

  finalizing-Settles :
      (problem : FailureRecord) (s : State)
      → is_under_way s.lifecycle.state ≡ false
      → run_state_eq s.lifecycle.state RunState.finalizing ≡ true
      → Settles s (fail_lifecycle clock answers problem s)
  unfolding fail_lifecycle is_terminal run_state_eq is_valid_transition
  finalizing-Settles problem s h same =
      ground (arith, transition_moves RunState.failed (some problem) s)

  lifecycle-Settles :
      (problem : FailureRecord) (s : State) → Settles s (fail_lifecycle clock answers problem s)
  lifecycle-Settles problem s = elim (Bool-cases (is_under_way s.lifecycle.state)) [
    | inl under_way ↦ under_way-Settles problem s under_way
    | inr idle ↦ elim (Bool-cases (run_state_eq s.lifecycle.state RunState.finalizing)) [
      | inl same ↦ finalizing-Settles problem s idle same
      | inr other ↦ idle-Settles problem s idle other
    ]
  ]

  -- What the write of the run record changes: the file holds the record, or the call was refused.
  abbrev RunWritten : State → State → Type 0
  RunWritten s t =
      (t.lifecycle ≡ s.lifecycle)
      × (t.run_record ≡ s.run_record)
      × (t.attempt_record ≡ s.attempt_record)
      × (t.staging.published ≡ s.staging.published)
      × (t.calls ≡ s.calls + 1)
      × ((t.staging.run ≡ some s.run_record) ⊎ ((e : RunError) × (answers s.calls ≡ some e)))

  write_run-RunWritten : (s : State) → RunWritten s (ignoring (write_run clock answers) s)
  unfolding write_run write call
  write_run-RunWritten s = elim (Option-cases (answers s.calls)) [
    | inl good ↦
        (ground arith, ground arith, ground arith, ground arith, ground arith, inl (ground arith))
    | inr (e, bad) ↦
        (ground arith, ground arith, ground arith, ground arith, ground arith, inr (e, bad))
  ]

  -- the same of the attempt record, whose write leaves the file of the run record
  abbrev AttemptWritten : State → State → Type 0
  AttemptWritten s t =
      (t.lifecycle ≡ s.lifecycle)
      × (t.run_record ≡ s.run_record)
      × (t.attempt_record ≡ s.attempt_record)
      × (t.staging.published ≡ s.staging.published)
      × (t.staging.run ≡ s.staging.run)
      × (t.calls ≡ s.calls + 1)
      × ((t.staging.attempt ≡ some s.attempt_record)
          ⊎ ((e : RunError) × (answers s.calls ≡ some e)))

  write_attempt-AttemptWritten :
      (s : State) → AttemptWritten s (ignoring (write_attempt clock answers) s)
  unfolding write_attempt write call
  write_attempt-AttemptWritten s = elim (Option-cases (answers s.calls)) [
    | inl good ↦ (
      ground arith,
      ground arith,
      ground arith,
      ground arith,
      ground arith,
      ground arith,
      inl (ground arith),
    )
    | inr (e, bad) ↦ (
      ground arith,
      ground arith,
      ground arith,
      ground arith,
      ground arith,
      ground arith,
      inr (e, bad),
    )
  ]

  -- the records that a failed run leaves on the disk: each is the last one, unless the operating
  -- system has refused its write, the last call or the one before
  pub record IsRecorded (t : State) : Type 0 where
    pub run :
        (t.staging.run ≡ some t.run_record)
        ⊎ ((n : ℕ) × (e : RunError) × (answers n ≡ some e) × (t.calls ≡ n + 2))
    pub attempt :
        (t.staging.attempt ≡ some t.attempt_record)
        ⊎ ((n : ℕ) × (e : RunError) × (answers n ≡ some e) × (t.calls ≡ n + 1))

  written_lem : (u w t : State) → RunWritten u w → AttemptWritten w t → IsRecorded t
  written_lem u w t (l, r, a, p, n, written) (l', r', a', p', kept, n', written') = record {
    run = elim written [
      | inl good ↦ inl (kept ∙ good ∙ ap some (sym (r' ∙ r)))
      | inr (e, bad) ↦ inr (u.calls, e, bad, omega arith)
    ];
    attempt = elim written' [
      | inl good ↦ inl (good ∙ ap some (sym a'))
      | inr (e, bad) ↦ inr (w.calls, e, bad, n')
    ];
  }

  -- Whatever the clock and the operating system answer, and in whatever state the run fails: after
  -- the failure is recorded the lifecycle is in a terminal state, or in `created` where it had not
  -- left it; the run record names the phase with its error code; both records are on the disk,
  -- where their writes are not refused; and nothing has been published.
  pub persist_allocated_failure-Settles :
      (phase message : String) (s : State)
      → let t = persist_allocated_failure clock answers phase message s in
        Settles s t × (t.run_record.failure ≡ some (allocated_failure phase message)) × IsRecorded t
  unfolding persist_allocated_failure
  persist_allocated_failure-Settles phase message s =
      let problem = allocated_failure phase message in
      let t : State = fail_lifecycle clock answers problem s in
      let u : State = record t {
        run_record = record t.run_record { updated_at = clock t.calls; failure = some problem };
        calls = t.calls + 1;
      } in
      let w : State = ignoring (write_run clock answers) u in
      let first = write_run-RunWritten u in
      let second = write_attempt-AttemptWritten w in
      let (settled, unpublished) = lifecycle-Settles problem s in
      (
        (
          subst
              (λ (l : Lifecycle).
                ((s.lifecycle.state ≡ RunState.created) × (l.state ≡ RunState.created))
                ⊎ (is_terminal l.state ≡ true))
              (sym (second.0 ∙ first.0)) settled,
          second.3 ∙ first.3 ∙ unpublished,
        ),
        ap (λ (r : RunRecord). r.failure) (second.1 ∙ first.1),
        written_lem u w (ignoring (write_attempt clock answers) w) first second,
      )
