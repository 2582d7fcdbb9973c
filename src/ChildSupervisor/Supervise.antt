-- ===== src/ChildSupervisor/Supervise.antt =====
-- `supervise` of crates/benchplane-core/src/child_supervisor.rs. What a round of the loop
-- observes of the clock, the channel and the operating system is its input, so that every
-- interleaving of the helper and its supervisor is a list of rounds.
use benchplane.Base.{
  ℕ, ◌+◌, String, Bool, true, false, Option, none, some, List, [], ◌∷◌, ◌++◌, length, ltb, leb,
  if◌then◌else◌, Result, ok, err, ◌>>=◌, format, decimal, is_none_or, checked, u64_mod,
}
use benchplane.Schema.Evidence.{FailureRecord}
use benchplane.Schema.Measurement.{MeasurementRecord}
use benchplane.ChildSupervisor.Protocol.{
  ChildProtocol, ReapedChild, CompletedChild, SupervisionFailure, StdoutEvent, failure,
  output_failure,
}

-- what `recv_timeout` gives
pub data Received : Type 0 where
  event : StdoutEvent → Received
  timeout disconnected : Received

pub record Round : Type 0 where
  pub late : Bool  -- `now >= deadline`
  pub received : Received
  pub waited : Result (Option ReapedChild) String  -- `wait4`, where the round calls it

-- the variables of the loop
pub record Supervision : Type 0 where
  pub metadata : List (List ℕ)
  pub measurements : List MeasurementRecord
  pub stdout_done : Bool
  pub exit_status : Option ReapedChild

abbrev pub begun : Supervision
begun = record { metadata = []; measurements = []; stdout_done = false; exit_status = none }

abbrev pub is_some {ℓ} : {A : Type ℓ} → Option A → Bool
is_some none = false
is_some (some a) = true

unfoldable pub supervision_failure : FailureRecord → Option ReapedChild → SupervisionFailure
supervision_failure f none = record { failure = f; resources = none }
supervision_failure f (some reaped) = record { failure = f; resources = some reaped.resources }

-- whether the round goes on to `wait4` or has been cut short by `continue`
abbrev pub Turn : Type 0
Turn = Result (Supervision × Bool) SupervisionFailure

module _ (decode : List ℕ → Result MeasurementRecord String)
    (validate : MeasurementRecord → ℕ → Result (Unit {0}) String) (protocol : ChildProtocol) where
  abbrev stopped {ℓ} : {A : Type ℓ} → Supervision → String → Result A SupervisionFailure
  stopped s message = err (supervision_failure (output_failure protocol message) s.exit_status)

  -- `checked_add(1).is_none_or(..)` on the length of a line
  abbrev pub too_long : List ℕ → Bool
  too_long line =
      is_none_or (checked u64_mod (length line + 1)) (λ n. ltb protocol.max_record_bytes n)

  -- `saturating_add` of the two counts, which are at most the constants of the adapters
  abbrev pub is_full : Supervision → Bool
  is_full s =
      leb (protocol.expected_metadata_records + protocol.expected_records)
        (length s.metadata + length s.measurements)

  -- a line that is not metadata
  unfoldable pub take_record : Supervision → List ℕ → Turn
  take_record s line = elim (decode line) [
    | err error ↦ stopped s (format ("emitted malformed JSON: " ∷ error ∷ []))
    | ok r ↦ elim (validate r (length s.measurements)) [
      | err message ↦ stopped s message
      | ok _ ↦ ok (record s { measurements = s.measurements ++ r ∷ [] }, true)
    ]
  ]

  unfoldable pub take_line : Supervision → List ℕ → Turn
  take_line s line =
      if is_full s
      then stopped s "emitted excessive protocol records"
      else if too_long line
      then stopped s (
          format (
            "measurement record exceeded the "
            ∷ decimal protocol.max_record_bytes
            ∷ " byte protocol envelope"
            ∷ []))
      else if ltb (length s.metadata) protocol.expected_metadata_records
      then ok (record s { metadata = s.metadata ++ line ∷ [] }, false)
      else take_record s line

  unfoldable pub receive : Supervision → Received → Turn
  receive s (event (StdoutEvent.line l)) = take_line s l
  receive s (event (StdoutEvent.error message)) = stopped s message
  receive s (event StdoutEvent.done) = ok (record s { stdout_done = true }, true)
  receive s disconnected = ok (record s { stdout_done = true }, true)
  receive s timeout = ok (s, true)

  -- the end of a round
  unfoldable pub wait_for_exit :
      Supervision × Bool
      → Result (Option ReapedChild) String
      → Result Supervision SupervisionFailure
  wait_for_exit (s, false) waited = ok s
  wait_for_exit (s, true) (ok status) =
      ok (if is_some s.exit_status then s else record s { exit_status = status })
  wait_for_exit (s, true) (err error) =
      if is_some s.exit_status
      then ok s
      else stopped s (format ("could not wait for helper: " ∷ error ∷ []))

  unfoldable pub round : Supervision → Round → Result Supervision SupervisionFailure
  round s r =
      if r.late
      then err (
          supervision_failure
            (failure protocol.deadline_failure_code (
              format (
                "packaged "
                ∷ protocol.runtime_name
                ∷ " helper exceeded the "
                ∷ decimal protocol.maximum_runtime_seconds
                ∷ " second experiment deadline"
                ∷ [])))
            s.exit_status)
      else (receive s r.received >>= λ t. wait_for_exit t r.waited)

  -- the child, once the loop's condition is false
  unfoldable pub completed : Supervision → Option CompletedChild
  completed s = elim s.exit_status [
    | none ↦ none
    | some reaped ↦
        if s.stdout_done
        then some (record { reaped = reaped; metadata = s.metadata; measurements = s.measurements })
        else none
  ]

  -- `none`: the rounds seen so far leave the loop running
  unfoldable pub supervise :
      Supervision → List Round → Option (Result CompletedChild SupervisionFailure)
  supervise s [] = elim (completed s) [ none ↦ none | some c ↦ some (ok c) ]
  supervise s (r ∷ rounds) = elim (completed s) [
    | some c ↦ some (ok c)
    | none ↦ elim (round s r) [ err f ↦ some (err f) | ok s' ↦ supervise s' rounds ]
  ]
