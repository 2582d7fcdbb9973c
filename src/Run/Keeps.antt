-- ===== src/Run/Keeps.antt =====
-- The steps of a run of crates/benchplane-core/src/run.rs that publish nothing.
use benchplane.Base.{
  ℕ, ◌+◌, ◌≡◌, refl, ap, ◌∙◌, inl, inr, String, Option, none, some, Result, ok, err, arith,
  Option-cases, Bool-cases, List,
}
use benchplane.Schema.Evidence.{RunState, AttemptStatus, LifecycleEvent, FailureRecord}
use benchplane.Schema.Measurement.{MeasurementRecord}
use benchplane.Lifecycle.{transition, is_valid_transition}
use benchplane.Run.State.{
  RunError, Staging, State, Action, ◌>>=◌, after, pure, now, call, write, write_experiment,
  append_event, append_measurement,
}
use benchplane.Run.Persist.{
  write_run, write_attempt, write_snapshots, persist_run_transition, persist_attempt_status,
}
use benchplane.Run.Sequence.{Stop, at, located, or_panic}

-- An action that publishes nothing, and one that publishes nothing where it fails.
pub record Keeps (E A : Type 0) (m : Action E A) : Type 0 where
  pub same : (s : State) → (m s).1.staging.published ≡ s.staging.published

pub record KeepsFailed (E A : Type 0) (m : Action E A) : Type 0 where
  pub same : (s : State) (e : E) → (m s).0 ≡ err e → (m s).1.staging.published ≡ s.staging.published

module _ {E A B : Type 0} where
  after-Keeps :
      (f : A → Action E B) (p : Result A E × State)
      → ((a : A) → Keeps E B (f a))
      → (after f p).1.staging.published ≡ p.1.staging.published
  after-Keeps f (ok a, t) h = (h a).same t
  after-Keeps f (err e, t) h = refl

  pub bind-Keeps :
      (m : Action E A) (f : A → Action E B)
      → Keeps E A m
      → ((a : A) → Keeps E B (f a))
      → Keeps E B (m >>= f)
  unfolding ◌>>=◌
  bind-Keeps m f h k = record { same = λ s. after-Keeps f (m s) k ∙ h.same s }

  after_failed :
      (f : A → Action E B) (p : Result A E × State) (e : E)
      → ((a : A) → KeepsFailed E B (f a))
      → (after f p).0 ≡ err e
      → (after f p).1.staging.published ≡ p.1.staging.published
  after_failed f (ok a, t) e h bad = (h a).same t e bad
  after_failed f (err x, t) e h bad = refl

  pub bind_failed :
      (m : Action E A) (f : A → Action E B)
      → Keeps E A m
      → ((a : A) → KeepsFailed E B (f a))
      → KeepsFailed E B (m >>= f)
  unfolding ◌>>=◌
  bind_failed m f h k = record { same = λ s e bad. after_failed f (m s) e k bad ∙ h.same s }

module _ {E A B : Type 0} where
  after_value :
      (f : A → B) (p : Result A E × State) (e : E)
      → (after (λ a. pure (f a)) p).0 ≡ err e
      → (p.0 ≡ err e) × ((after (λ a. pure {E = E} (f a)) p).1 ≡ p.1)
  after_value f (ok a, t) e h = cc
  after_value f (err x, t) e h = (ground arith, refl)

  pub value_failed :
      (m : Action E A) (f : A → B) → KeepsFailed E A m → KeepsFailed E B (m >>= λ a. pure (f a))
  unfolding ◌>>=◌
  value_failed m f h = record {
    same = λ s e bad.
        let (failed, left) = after_value f (m s) e bad in
        ap (λ (t : State). t.staging.published) left ∙ h.same s e failed;
  }

module _ {A : Type 0} where
  located_lem : (phase : String) (p : Result A RunError × State) → (located phase p).1 ≡ p.1
  located_lem phase (ok a, t) = refl
  located_lem phase (err e, t) = refl

  pub at-Keeps :
      (m : Action RunError A) (phase : String) → Keeps RunError A m → Keeps Stop A (at m phase)
  unfolding at
  at-Keeps m phase h = record {
    same = λ s. ap (λ (t : State). t.staging.published) (located_lem phase (m s)) ∙ h.same s;
  }

  pub or_panic-Keeps : (o : Option A) → Keeps Stop A (or_panic o)
  or_panic-Keeps none = record { same = λ s. refl }
  or_panic-Keeps (some a) = record { same = λ s. refl }

module _ (clock : ℕ → String) (answers : ℕ → Option RunError) where
  call-Keeps :
      (done failed : Staging → Staging)
      → ((f : Staging) → (done f).published ≡ f.published)
      → ((f : Staging) → (failed f).published ≡ f.published)
      → Keeps RunError (Unit {0}) (call clock answers done failed)
  unfolding call
  call-Keeps done failed h k = record {
    same = λ s. elim (Option-cases (answers s.calls)) [
      | inl good ↦ rw (good, call) (h s.staging)
      | inr (e, bad) ↦ rw (bad, call) (k s.staging)
    ];
  }

  -- a write under a phase
  pub put-Keeps :
      (done : Staging → Staging) (phase : String)
      → ((f : Staging) → (done f).published ≡ f.published)
      → Keeps Stop (Unit {0}) (at (write clock answers done) phase)
  unfolding write
  put-Keeps done phase h =
      at-Keeps (write clock answers done) phase (call-Keeps done (λ f. f) h (λ f. refl))

  pub transition-Keeps :
      (to : RunState) (problem : Option FailureRecord)
      → Keeps RunError (Unit {0}) (persist_run_transition clock answers to problem)
  unfolding persist_run_transition ◌>>=◌ now append_event transition write_run write call
  transition-Keeps to problem = record {
    same = λ s. elim (Bool-cases (is_valid_transition s.lifecycle.state to)) [
      | inr invalid ↦ ground arith
      | inl valid ↦ elim (Option-cases (answers (s.calls + 1))) [
        | inr (e, bad) ↦ ground arith
        | inl good ↦ elim (Option-cases (answers (s.calls + 1 + 1))) [
          | inr (e, bad) ↦ ground arith
          | inl fine ↦ ground arith
        ]
      ]
    ];
  }

  pub attempt-Keeps :
      (status : AttemptStatus) (problem : Option FailureRecord)
      → Keeps RunError (Unit {0}) (persist_attempt_status clock answers status problem)
  unfolding persist_attempt_status ◌>>=◌ now write_attempt write call
  attempt-Keeps status problem = record {
    same = λ s. elim (Option-cases (answers (s.calls + 1))) [
      | inl good ↦ ground arith
      | inr (e, bad) ↦ ground arith
    ];
  }

  pub snapshots_keep : Keeps RunError (Unit {0}) (write_snapshots clock answers)
  unfolding write_snapshots ◌>>=◌ write_run write_attempt write call
  snapshots_keep = record {
    same = λ s. elim (Option-cases (answers s.calls)) [
      | inr (e, bad) ↦ ground arith
      | inl good ↦ elim (Option-cases (answers (s.calls + 1))) [
        | inl fine ↦ ground arith
        | inr (e, bad) ↦ ground arith
      ]
    ];
  }

  pub experiment-Keeps :
      (bytes : List ℕ) → Keeps RunError (Unit {0}) (write_experiment clock answers bytes)
  unfolding write_experiment
  experiment-Keeps bytes = call-Keeps _ _ (λ f. refl) (λ f. refl)

  pub event-Keeps :
      (event : LifecycleEvent) → Keeps RunError (Unit {0}) (append_event clock answers event)
  unfolding append_event
  event-Keeps event = call-Keeps _ _ (λ f. refl) (λ f. refl)

  pub measurement-Keeps :
      (m : MeasurementRecord) → Keeps RunError (Unit {0}) (append_measurement clock answers m)
  unfolding append_measurement
  measurement-Keeps m = call-Keeps _ _ (λ f. refl) (λ f. refl)
