-- ===== src/Examples/Runs.antt =====
-- Runs from the allocation on, at concrete inputs.
use benchplane.Base.{ℕ, String, false, Option, none, some, [], ◌∷◌, Result, if◌then◌else◌, ◌==◌}
use benchplane.Schema.Evidence.{
  RunState, AttemptProvenance, PlatformProvenance, RuntimeProvenance, ValidityStatus,
}
use benchplane.Schema.Measurement.{ValidityResult, RunResult}
use benchplane.Execution.{ExecutionOutput}
use benchplane.Provenance.Capture.{Environment}
use benchplane.Run.State.{RunError, io, State}
use benchplane.Run.Sequence.{Stop, failure, allocated, run_allocated, settle}
use benchplane.Examples.Plans.{fake_plan, samples}

abbrev pub platform : PlatformProvenance
platform = record {
  operating_system = record { family = "linux"; distribution = none; version = none };
  kernel = record { name = "Linux"; release = none };
  architecture = "x86_64";
  cpu = record { model = none; logical_cpu_count = some 4 };
}

abbrev environment : Environment
environment = record {
  platform = platform;
  version = "0.1.0";
  benchplane_path = none;
  llama_cpp_path = none;
  llama_cpp_cuda_path = none;
  model_path = none;
}

abbrev output : ExecutionOutput
output = record {
  measurements = samples "benchplane-local-fake/v1" [];
  resources = none;
  nvidia_gpu = none;
  terminal_state = RunState.succeeded;
  failure = none;
}

abbrev pub provenance_of : String → AttemptProvenance
provenance_of run_id = record {
  format = "benchplane-attempt-provenance/v1";
  run_id = run_id;
  attempt_number = 1;
  platform = platform;
  software = record {
    benchplane = record { name = "benchplane"; version = "0.1.0"; nix_store_path = none };
    runtime = RuntimeProvenance.local_fake "benchplane-local-fake/v1";
  };
}

abbrev clock : ℕ → String
clock n = "2026-01-01T00:00:00Z"

abbrev pub verdict_of : String → ValidityResult
verdict_of run_id = record {
  run_id = run_id;
  status = ValidityStatus.valid;
  required_samples = 2;
  observed_samples = 2;
  reasons = [];
}

-- every call succeeds
abbrev no_failure : ℕ → Option RunError
no_failure n = none

abbrev full : RunError
full = io "attempts/0001/measurements.jsonl" "no space left on device"

-- one call fails
abbrev one_failure : ℕ → Option RunError
one_failure n = if n == 23 then some full else none

abbrev stopped : Result RunResult Stop × State
stopped =
    settle clock one_failure (λ e. "no space left on device")
      (run_allocated clock one_failure environment (1 ∷ []) fake_plan output "run-1" "2026" false
        "runs/run-1" "digest" (allocated "run-1" "2026" fake_plan))
