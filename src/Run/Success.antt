-- ===== src/Run/Success.antt =====
-- What the steps of a run in crates/benchplane-core/src/run.rs do where their calls succeed.
use benchplane.Base.{
  true, ℕ, ◌+◌, ◌≡◌, refl, sym, subst, ◌⊎◌, inl, inr, String, Option, some, Result, ok, err, arith,
  Option-cases, List,
}
use benchplane.Schema.Evidence.{RunState, AttemptStatus, FailureRecord, LifecycleEvent}
use benchplane.Lifecycle.{transition, is_valid_transition}
use benchplane.Schema.Measurement.{MeasurementRecord}
use benchplane.Run.Sequence.{Stop, failure, at, located, or_panic}
use benchplane.Run.State.{
  Action, ◌>>=◌, after, RunError, Staging, State, whole, now, call, write, write_experiment,
  append_event, append_measurement, appended,
}
use benchplane.Run.Persist.{
  with_status, with_attempt_status, write_run, write_attempt, persist_run_transition,
  persist_attempt_status, write_snapshots,
}

-- an error that the operating system answers to a call
abbrev pub Refused : (ℕ → Option RunError) → RunError → Type 0
Refused answers e = (n : ℕ) × (answers n ≡ some e)

-- A step gives a value and leaves a given state, or a call of it is refused.
abbrev pub Reaches :
    {A : Type 0} → (ℕ → Option RunError) → Result A RunError × State → A → State → Type 0
Reaches answers p a t = (p ≡ (ok a, t)) ⊎ ((e : RunError) × Refused answers e × (p.0 ≡ err e))

-- The same of a part of the run, with what may cause its failure: it does not panic.
abbrev pub Gets : {A : Type 0} → (RunError → Type 0) → Result A Stop × State → A → State → Type 0
Gets C p a t =
    (p ≡ (ok a, t)) ⊎ ((phase : String) × (e : RunError) × C e × (p.0 ≡ err (failure phase e)))

module _ {A B : Type 0} where
  -- A chain gets to what its second part gets to from where the first one ends.
  pub bind-Gets :
      {C : RunError → Type 0} (m : Action Stop A) (f : A → Action Stop B) (s u t : State) (a : A)
      (b : B)
      → Gets C (m s) a u
      → Gets C (f a u) b t
      → Gets C ((m >>= f) s) b t
  unfolding ◌>>=◌
  bind-Gets {C} m f s u t a b (inl good) second =
      subst (λ p. Gets C (after f p) b t) (sym good) second
  bind-Gets {C} m f s u t a b (inr (phase, e, cause, bad)) second =
      inr (phase, e, cause, ground arith)

pub Gets-weaken :
    {A : Type 0} {C D : RunError → Type 0} (p : Result A Stop × State) (a : A) (t : State)
    → ((e : RunError) → C e → D e)
    → Gets C p a t
    → Gets D p a t
Gets-weaken p a t w (inl good) = inl good
Gets-weaken p a t w (inr (phase, e, cause, bad)) = inr (phase, e, w e cause, bad)

pub at-Gets :
    {A : Type 0} (answers : ℕ → Option RunError) (m : Action RunError A) (phase : String)
    (s t : State) (a : A)
    → Reaches answers (m s) a t
    → Gets (Refused answers) (at m phase s) a t
unfolding at
at-Gets answers m phase s t a (inl good) =
    subst (λ p. Gets (Refused answers) (located phase p) a t) (sym good) (inl refl)
at-Gets answers m phase s t a (inr (e, cause, bad)) = inr (phase, e, cause, ground arith)

pub or_panic-Gets :
    {A : Type 0} {C : RunError → Type 0} (o : Option A) (a : A) (s : State)
    → o ≡ some a
    → Gets C (or_panic o s) a s
or_panic-Gets o a s h = inl (rw h refl)

unfoldable pub wrote : (Staging → Staging) → State → State
wrote done s = record s { staging = done s.staging; calls = s.calls + 1 }

-- after `write_snapshots`
abbrev pub snapped : State → State
snapped s =
    let u = wrote (λ f. record f { run = some s.run_record }) s in
    wrote (λ f. record f { attempt = some u.attempt_record }) u

unfoldable pub event_of : State → RunState → String → Option FailureRecord → LifecycleEvent
event_of s to recorded_at problem = record {
  run_id = s.lifecycle.run_id;
  sequence = s.lifecycle.next_sequence;
  recorded_at = recorded_at;
  from_state = some s.lifecycle.state;
  to_state = to;
  attempt_number = s.lifecycle.attempt_number;
  failure = problem;
}

module _ (clock : ℕ → String) where
  -- after a persisted transition
  unfoldable pub moved : RunState → Option FailureRecord → State → State
  unfolding with_status event_of
  moved to problem s =
      let at = clock s.calls in
      let r = with_status s.run_record to at problem in
      record {
        lifecycle = record s.lifecycle {
          state = to;
          next_sequence = s.lifecycle.next_sequence + 1;
        };
        run_record = r;
        attempt_record = s.attempt_record;
        staging = record s.staging {
          events = appended s.staging.events (whole (event_of s to at problem));
          run = some r;
        };
        calls = s.calls + 1 + 1 + 1;
      }

  -- after a persisted attempt status
  unfoldable pub attempted : AttemptStatus → Option FailureRecord → State → State
  unfolding with_attempt_status
  attempted status problem s =
      let a = with_attempt_status s.attempt_record status (clock s.calls) problem in
      record s {
        attempt_record = a;
        staging = record s.staging { attempt = some a };
        calls = s.calls + 1 + 1;
      }

  module _ (answers : ℕ → Option RunError) where
    pub write-Reaches :
        (done : Staging → Staging) (s : State)
        → Reaches answers (write clock answers done s) tt (wrote done s)
    unfolding write wrote
    write-Reaches done s = elim (Option-cases (answers s.calls)) [
      | inl good ↦ inl (rw (good, call) refl)
      | inr (e, bad) ↦ inr (e, (s.calls, bad), rw (bad, call) refl)
    ]

    pub persist_run_transition-Reaches :
        (to : RunState) (problem : Option FailureRecord) (s : State)
        → is_valid_transition s.lifecycle.state to ≡ true
        → Reaches answers
            (persist_run_transition clock answers to problem s)
            tt
            (moved to problem s)
    unfolding ◌>>=◌ persist_run_transition moved now append_event transition write_run write call
    persist_run_transition-Reaches to problem s valid =
        elim (Option-cases (answers (s.calls + 1))) [
          | inr (e, bad) ↦ inr (e, (_, bad), ground arith)
          | inl good ↦ elim (Option-cases (answers (s.calls + 1 + 1))) [
            | inr (e, bad) ↦ inr (e, (_, bad), ground arith)
            | inl fine ↦ inl (ground arith)
          ]
        ]

    pub persist_attempt_status-Reaches :
        (status : AttemptStatus) (problem : Option FailureRecord) (s : State)
        → Reaches answers
            (persist_attempt_status clock answers status problem s)
            tt
            (attempted status problem s)
    unfolding ◌>>=◌ persist_attempt_status attempted now write_attempt write call
    persist_attempt_status-Reaches status problem s = elim (Option-cases (answers (s.calls + 1))) [
      | inl good ↦ inl (ground arith)
      | inr (e, bad) ↦ inr (e, (_, bad), ground arith)
    ]

    pub write_experiment-Reaches :
        (bytes : List ℕ) (s : State)
        → Reaches answers
            (write_experiment clock answers bytes s)
            tt
            (wrote (λ f. record f { experiment = some (whole bytes) }) s)
    unfolding write_experiment wrote call
    write_experiment-Reaches bytes s = elim (Option-cases (answers s.calls)) [
      | inl good ↦ inl (ground arith)
      | inr (e, bad) ↦ inr (e, (_, bad), ground arith)
    ]

    pub append_event-Reaches :
        (event : LifecycleEvent) (s : State)
        → Reaches answers
            (append_event clock answers event s)
            tt
            (wrote (λ f. record f { events = appended f.events (whole event) }) s)
    unfolding append_event wrote call
    append_event-Reaches event s = elim (Option-cases (answers s.calls)) [
      | inl good ↦ inl (ground arith)
      | inr (e, bad) ↦ inr (e, (_, bad), ground arith)
    ]

    pub append_measurement-Reaches :
        (m : MeasurementRecord) (s : State)
        → Reaches answers
            (append_measurement clock answers m s)
            tt
            (wrote (λ f. record f { measurements = appended f.measurements (whole m) }) s)
    unfolding append_measurement wrote call
    append_measurement-Reaches m s = elim (Option-cases (answers s.calls)) [
      | inl good ↦ inl (ground arith)
      | inr (e, bad) ↦ inr (e, (_, bad), ground arith)
    ]

    pub write_snapshots-Reaches :
        (s : State) → Reaches answers (write_snapshots clock answers s) tt (snapped s)
    unfolding ◌>>=◌ write_snapshots write_run write_attempt write wrote call
    write_snapshots-Reaches s = elim (Option-cases (answers s.calls)) [
      | inr (e, bad) ↦ inr (e, (_, bad), ground arith)
      | inl good ↦ elim (Option-cases (answers (s.calls + 1))) [
        | inl fine ↦ inl (ground arith)
        | inr (e, bad) ↦ inr (e, (_, bad), ground arith)
      ]
    ]
