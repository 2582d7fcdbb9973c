-- ===== src/ChildSupervisor.antt =====
-- crates/benchplane-core/src/child_supervisor.rs: the private supervision of a measurement
-- helper. This file holds `execute` and what it makes of the supervision's end; what the
-- operating system does is its input.
pub mod Protocol
pub mod Supervise
pub mod Invariant
pub mod Loop
pub mod Stdout
pub mod Resources
pub mod Outcome
use benchplane.Base.{
  ℕ, ℤ, ◌+◌, String, Bool, true, false, not, ◌||◌, ◌&&◌, Option, none, some, List, [], ◌∷◌, length,
  ltb, leb, ◌==◌, str_eq, if◌then◌else◌, Result, ok, err, format, decimal, and_then, keep_if,
  checked, u64_mod, checked_mul_usize,
}
use benchplane.Execution.{is_empty}
use benchplane.Schema.Evidence.{FailureRecord, ProcessResources}
use benchplane.Schema.Measurement.{MeasurementRecord}
use Protocol.{
  ChildProtocol, ChildExecution, ExitCodeFailure, ExitStatus, CompletedChild, SupervisionFailure,
  failed, failure, bounded_message, output_failure, resource_failure, failed_after_reap, int_eq,
  ok_of,
}
use Supervise.{Round, begun, supervise}

unfoldable pub completed_success :
    ChildProtocol
    → Result ProcessResources String
    → List (List ℕ)
    → List MeasurementRecord
    → ChildExecution
completed_success protocol resources metadata measurements =
    if not (length metadata == protocol.expected_metadata_records)
      || not (length measurements == protocol.expected_records)
    then failed_after_reap
        (output_failure protocol (
          format (
            "emitted "
            ∷ decimal (length metadata)
            ∷ " metadata and "
            ∷ decimal (length measurements)
            ∷ " measurement records; expected "
            ∷ decimal protocol.expected_metadata_records
            ∷ " and "
            ∷ decimal protocol.expected_records
            ∷ [])))
        resources
    else elim resources [
      | ok r ↦ record {
        metadata = metadata;
        measurements = measurements;
        resources = some r;
        failure = none;
      }
      | err error ↦ failed (resource_failure protocol error) none
    ]

-- `find` on the special exit codes
abbrev pub find_code : List ExitCodeFailure → ℤ → Option ExitCodeFailure
find_code [] code = none
find_code (f ∷ rest) code =
    let later = find_code rest code in if int_eq f.exit_code code then some f else later

-- the failure code and the message of a helper that exits without success
unfoldable pub exit_failure : ChildProtocol → ExitStatus → String × String
exit_failure protocol status = elim (and_then status.code (find_code protocol.special_exit_codes)) [
  | some special ↦ (special.failure_code, special.message)
  | none ↦ (
    protocol.exit_failure_code,
    format ("packaged " ∷ protocol.runtime_name ∷ " helper exited with " ∷ status.display ∷ []),
  )
]

unfoldable pub accepted_bytes : ChildProtocol → Option ℕ
accepted_bytes protocol =
    keep_if
      (and_then (checked u64_mod (protocol.expected_metadata_records + protocol.expected_records))
        (λ records. checked_mul_usize records protocol.max_record_bytes))
      (λ bytes. leb bytes protocol.max_stdout_bytes)

-- `shown` is the lossy UTF-8 text of a byte string without the blanks around it.
module _ (shown : List ℕ → String) where
  unfoldable pub format_stderr : List ℕ → String
  format_stderr stderr = if is_empty stderr then "" else format ("; stderr: " ∷ shown stderr ∷ [])

  abbrev with_stderr : ChildProtocol → FailureRecord → List ℕ → FailureRecord
  with_stderr protocol f stderr =
      if not (is_empty stderr) && not (str_eq f.code protocol.deadline_failure_code)
      then record f { message = bounded_message (format (f.message ∷ format_stderr stderr ∷ [])) }
      else f

  -- the `match` on the result; `reaped` is what `terminate_and_reap` gives where it is called
  unfoldable pub conclude :
      ChildProtocol
      → Result ProcessResources String
      → List ℕ
      → Result CompletedChild SupervisionFailure
      → ChildExecution
  unfolding completed_success
  conclude protocol reaped stderr (ok c) =
      if c.reaped.status.success
      then completed_success protocol c.reaped.resources c.metadata c.measurements
      else (let (code, message) = exit_failure protocol c.reaped.status in
          failed_after_reap (failure code (format (message ∷ format_stderr stderr ∷ [])))
            c.reaped.resources)
  conclude protocol reaped stderr (err f) =
      failed_after_reap (with_stderr protocol f.failure stderr)
        (elim f.resources [ none ↦ reaped | some r ↦ r ])

  -- What happens outside: whether the helper starts, the rounds of the supervision, what
  -- reaping gives and what the helper has written to stderr. `none`: the rounds go on.
  unfoldable pub execute :
      (List ℕ → Result MeasurementRecord String)
      → (MeasurementRecord → ℕ → Result (Unit {0}) String)
      → ChildProtocol
      → Result (Unit {0}) String
      → List Round
      → Result ProcessResources String
      → List ℕ
      → Option ChildExecution
  execute decode validate protocol spawned rounds reaped stderr = elim (accepted_bytes protocol) [
    | none ↦
        some (failed (output_failure protocol "requested output exceeds its transport bound") none)
    | some bytes ↦ elim spawned [
      | err error ↦ some (
          failed
            (failure protocol.spawn_failure_code (
              format
                ("could not start packaged " ∷ protocol.runtime_name ∷ " helper: " ∷ error ∷ [])))
            none)
      | ok _ ↦ elim (supervise decode validate protocol begun rounds) [
        | none ↦ none
        | some result ↦ some (conclude protocol reaped stderr result)
      ]
    ]
  ]
