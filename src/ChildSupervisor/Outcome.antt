-- ===== src/ChildSupervisor/Outcome.antt =====
-- What `execute` of crates/benchplane-core/src/child_supervisor.rs returns: all of the helper's
-- records or none.
use benchplane.Base.{
  ℕ, ◌≡◌, refl, subst, String, not, ◌||◌, ◌==◌, Bool, Option, none, some, List, [], length, Result,
  ok, err, Option-cases, Bool-cases, inl, inr, arith,
}
use benchplane.Schema.Evidence.{FailureRecord, ProcessResources}
use benchplane.Schema.Measurement.{MeasurementRecord}
use benchplane.ChildSupervisor.Protocol.{
  ChildProtocol, ChildExecution, CompletedChild, SupervisionFailure, failed, failed_after_reap,
}
use benchplane.ChildSupervisor.Supervise.{Round, begun, supervise}
use benchplane.ChildSupervisor.Invariant.{ValidatedFrom}
use benchplane.ChildSupervisor.Loop.{supervise_sound}
use benchplane.ChildSupervisor.{completed_success, conclude, execute, accepted_bytes}

module _ (validate : MeasurementRecord → ℕ → Result (Unit {0}) String)
    (protocol : ChildProtocol) where
  -- a success with every record that is expected, or a failure with none
  pub data IsOutcome (out : ChildExecution) : Type 0 where
    success :
        (resources : ProcessResources)
        → out.failure ≡ none
        → out.resources ≡ some resources
        → length out.metadata ≡ protocol.expected_metadata_records
        → length out.measurements ≡ protocol.expected_records
        → ValidatedFrom validate 0 out.measurements
        → IsOutcome out
    failure :
        (f : FailureRecord)
        → out.failure ≡ some f
        → out.metadata ≡ []
        → out.measurements ≡ []
        → IsOutcome out

  abbrev is_incomplete : List (List ℕ) → List MeasurementRecord → Bool
  is_incomplete metadata measurements =
      not (length metadata == protocol.expected_metadata_records)
      || not (length measurements == protocol.expected_records)

  completed_success-IsOutcome :
      (resources : Result ProcessResources String) (metadata : List (List ℕ))
      (measurements : List MeasurementRecord)
      → ValidatedFrom validate 0 measurements
      → IsOutcome (completed_success protocol resources metadata measurements)
  unfolding completed_success failed_after_reap failed
  completed_success-IsOutcome (ok r) metadata measurements h =
      elim (Bool-cases (is_incomplete metadata measurements)) [
        | inl missing ↦ rw missing (failure _ refl refl refl)
        | inr complete ↦ rw complete (success r refl refl (ground arith) (ground arith) h)
      ]
  completed_success-IsOutcome (err error) metadata measurements h =
      elim (Bool-cases (is_incomplete metadata measurements)) [
        | inl missing ↦ rw missing (failure _ refl refl refl)
        | inr complete ↦ rw complete (failure _ refl refl refl)
      ]

  conclude-IsOutcome :
      (shown : List ℕ → String) (reaped : Result ProcessResources String) (stderr : List ℕ)
      (result : Result CompletedChild SupervisionFailure)
      → ((c : CompletedChild) → result ≡ ok c → ValidatedFrom validate 0 c.measurements)
      → IsOutcome (conclude shown protocol reaped stderr result)
  unfolding conclude failed_after_reap failed
  conclude-IsOutcome shown reaped stderr (err f) h = failure _ refl refl refl
  conclude-IsOutcome shown reaped stderr (ok c) h = elim (Bool-cases c.reaped.status.success) [
    | inl passed ↦
        rw passed
          (completed_success-IsOutcome c.reaped.resources c.metadata c.measurements (h c refl))
    | inr exited ↦ rw exited (failure _ refl refl refl)
  ]

  -- of an execution, if it has ended
  AllOutcome : Option ChildExecution → Type 0
  AllOutcome none = Unit
  AllOutcome (some out) = IsOutcome out

  execute-AllOutcome :
      (shown : List ℕ → String) (decode : List ℕ → Result MeasurementRecord String)
      (spawned : Result (Unit {0}) String) (rounds : List Round)
      (reaped : Result ProcessResources String) (stderr : List ℕ)
      → AllOutcome (execute shown decode validate protocol spawned rounds reaped stderr)
  unfolding execute failed AllOutcome
  execute-AllOutcome shown decode (err error) rounds reaped stderr =
      elim (Option-cases (accepted_bytes protocol)) [
        | inl excessive ↦ rw (excessive, AllOutcome) (failure _ refl refl refl)
        | inr (bytes, bounded) ↦ rw (bounded, AllOutcome) (failure _ refl refl refl)
      ]
  execute-AllOutcome shown decode (ok _) rounds reaped stderr =
      elim (Option-cases (accepted_bytes protocol)) [
        | inl excessive ↦ rw (excessive, AllOutcome) (failure _ refl refl refl)
        | inr (bytes, bounded) ↦
            elim (Option-cases (supervise decode validate protocol begun rounds)) [
              | inl running ↦ rw (bounded, running, AllOutcome) tt
              | inr (result, ended) ↦
                  rw (bounded, ended, AllOutcome)
                    (conclude-IsOutcome shown reaped stderr result (λ c same.
                      (supervise_sound decode validate protocol rounds c (ground arith)).0))
            ]
      ]

-- Whatever the helper writes, whenever it exits and whatever the operating system answers: an
-- execution either has no failure, all the metadata lines and all the measurement records that
-- the protocol expects, each measurement checked at its position, and the helper's resources; or
-- it has a failure and not one metadata line or measurement.
pub execute-IsOutcome :
    (shown : List ℕ → String) (decode : List ℕ → Result MeasurementRecord String)
    (validate : MeasurementRecord → ℕ → Result (Unit {0}) String) (protocol : ChildProtocol)
    (spawned : Result (Unit {0}) String) (rounds : List Round)
    (reaped : Result ProcessResources String) (stderr : List ℕ) (out : ChildExecution)
    → execute shown decode validate protocol spawned rounds reaped stderr ≡ some out
    → IsOutcome validate protocol out
unfolding AllOutcome
execute-IsOutcome shown decode validate protocol spawned rounds reaped stderr out e =
    subst (AllOutcome validate protocol) e
      (execute-AllOutcome validate protocol shown decode spawned rounds reaped stderr)
