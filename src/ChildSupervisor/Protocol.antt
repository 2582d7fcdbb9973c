-- ===== src/ChildSupervisor/Protocol.antt =====
-- crates/benchplane-core/src/child_supervisor.rs: the protocol of a helper, what its execution
-- gives, and the failures.
use benchplane.Base.{
  ℕ, zero, suc, ℤ, pos, negsuc, ◌==◌, String, Bool, false, Option, none, some, List, [], ◌∷◌,
  Result, ok, err, format,
}
use benchplane.Schema.Evidence.{FailureRecord, ProcessResources}
use benchplane.Schema.Measurement.{MeasurementRecord}

pub record ExitCodeFailure : Type 0 where
  pub exit_code : ℤ  -- i32
  pub failure_code : String
  pub message : String

-- The `usize` fields are at most the constants that cpu_probe.rs and llama_cpp.rs pass.
pub record ChildProtocol : Type 0 where
  pub runtime_name : String
  pub expected_metadata_records : ℕ
  pub expected_records : ℕ
  pub max_record_bytes : ℕ
  pub max_stdout_bytes : ℕ
  pub maximum_runtime_seconds : ℕ
  pub spawn_failure_code : String
  pub exit_failure_code : String
  pub output_failure_code : String
  pub deadline_failure_code : String
  pub resource_failure_code : String
  pub special_exit_codes : List ExitCodeFailure

pub record ChildExecution : Type 0 where
  pub metadata : List (List ℕ)
  pub measurements : List MeasurementRecord
  pub resources : Option ProcessResources
  pub failure : Option FailureRecord

unfoldable pub failed : FailureRecord → Option ProcessResources → ChildExecution
failed failure resources = record {
  metadata = [];
  measurements = [];
  resources = resources;
  failure = some failure;
}

-- what the program reads of the standard library's `ExitStatus`: `success()`, `code()`, `{}`
pub record ExitStatus : Type 0 where
  pub success : Bool
  pub code : Option ℤ
  pub display : String

pub record ReapedChild : Type 0 where
  pub status : ExitStatus
  pub resources : Result ProcessResources String

pub record CompletedChild : Type 0 where
  pub reaped : ReapedChild
  pub metadata : List (List ℕ)
  pub measurements : List MeasurementRecord

pub record SupervisionFailure : Type 0 where
  pub failure : FailureRecord
  pub resources : Option (Result ProcessResources String)

pub data StdoutEvent : Type 0 where
  line : List ℕ → StdoutEvent
  error : String → StdoutEvent
  done : StdoutEvent

-- `chars().take(n).collect()`
unfoldable pub take_chars : ℕ → String → String
take_chars zero s = ""
take_chars (suc n) String.[] = ""
take_chars (suc n) (String.◌∷◌ c s) = String.◌∷◌ c (take_chars n s)

unfoldable pub bounded_message : String → String
unfolding take_chars
bounded_message message = take_chars 1024 message

unfoldable pub failure : String → String → FailureRecord
unfolding bounded_message
failure code message = record {
  phase = "running";
  code = code;
  message = bounded_message message;
  retryable = false;
  attempt_number = 1;
}

unfoldable pub output_failure : ChildProtocol → String → FailureRecord
output_failure protocol message =
    failure protocol.output_failure_code
      (format (protocol.runtime_name ∷ " protocol: " ∷ message ∷ []))

unfoldable pub resource_failure : ChildProtocol → String → FailureRecord
resource_failure protocol message = failure protocol.resource_failure_code (
    format ("could not account for packaged " ∷ protocol.runtime_name ∷ " helper: " ∷ message ∷ []))

-- `Result::ok`
abbrev pub ok_of {ℓ κ} : {A : Type ℓ} {E : Type κ} → Result A E → Option A
ok_of (ok a) = some a
ok_of (err e) = none

unfoldable pub failed_after_reap : FailureRecord → Result ProcessResources String → ChildExecution
unfolding failed
failed_after_reap primary resources = failed primary (ok_of resources)

abbrev pub int_eq : ℤ → ℤ → Bool
int_eq (pos a) (pos b) = a == b
int_eq (negsuc a) (negsuc b) = a == b
int_eq _ _ = false
