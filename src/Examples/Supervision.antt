-- ===== src/Examples/Supervision.antt =====
-- The supervision of a helper, at short runs.
use benchplane.Base.{
  ℕ, ◌+◌, ◌≤◌, ◌≡◌, ◌≢◌, ◌↔◌, ◌⊎◌, refl, pos, String, true, false, Option, none, some, List, [],
  ◌∷◌, ◌++◌, map, Result, ok, err, arith,
}
use benchplane.Schema.Evidence.{ProcessResources}
use benchplane.Schema.Measurement.{MeasurementRecord, MeasurementPhase}
use benchplane.ChildSupervisor.Protocol.{
  ChildProtocol, ChildExecution, CompletedChild, ReapedChild, StdoutEvent,
}
use benchplane.ChildSupervisor.Supervise.{
  Round, Received, begun, supervise, round, receive, take_line, take_record, wait_for_exit,
  completed,
}
use benchplane.ChildSupervisor.Invariant.{ValidatedFrom}
use benchplane.ChildSupervisor.Loop.{supervise_sound, supervise-ends}
use benchplane.ChildSupervisor.Stdout.{read_stdout, read_stdout-lines}
use benchplane.ChildSupervisor.Resources.{
  resource_usage_from_components, Represents, resource_usage_from_components_iff,
}
use benchplane.ChildSupervisor.Outcome.{IsOutcome, execute-IsOutcome}
use benchplane.ChildSupervisor.{execute, accepted_bytes, conclude, completed_success}
use benchplane.Schema.Experiment.{cpu_probe_generator_version}
use benchplane.CpuProbe
use benchplane.CpuProbe.{validate_record}
use benchplane.Examples.Plans.{probe_plan, sample, decode}

abbrev config : CpuProbe.CpuProbeConfig
config = CpuProbe.config_of probe_plan.experiment.spec 4 1000

abbrev protocol : ChildProtocol
protocol = CpuProbe.protocol_of config 1

abbrev read : List ℕ → Result MeasurementRecord String
read = decode cpu_probe_generator_version

abbrev check : MeasurementRecord → ℕ → Result (Unit {0}) String
check r i = validate_record r i config

abbrev usage : ProcessResources
usage = record { cpu_time_micros = 1500000; peak_rss_bytes = 4096 }

abbrev reaped : ReapedChild
reaped = record {
  status = record { success = true; code = some (pos 0); display = "exit status: 0" };
  resources = ok usage;
}

abbrev seen : Received → Option ReapedChild → Round
seen received exited = record { late = false; received = received; waited = ok exited }

-- the helper exits before its last line is read
abbrev rounds : List Round
rounds =
    seen Received.timeout none
    ∷ seen Received.timeout (some reaped)
    ∷ seen (Received.event (StdoutEvent.line (87 ∷ 49 ∷ []))) none
    ∷ seen (Received.event StdoutEvent.done) none
    ∷ []

abbrev measurements : List MeasurementRecord
measurements = sample cpu_probe_generator_version MeasurementPhase.warmup 1 [] ∷ []

abbrev child : CompletedChild
child = record { reaped = reaped; metadata = []; measurements = measurements }

supervised : supervise read check protocol begun rounds ≡ some (ok child)
unfolding supervise round receive take_line take_record wait_for_exit completed validate_record
    CpuProbe.is_valid CpuProbe.protocol_of CpuProbe.config_of
supervised = refl

supervise_sound_example :
    ValidatedFrom check 0 measurements
    × (0 ≤ protocol.expected_metadata_records)
    × (0 + 1 ≤ protocol.expected_metadata_records + protocol.expected_records)
    × ((measurements ≡ []) ⊎ (0 ≡ protocol.expected_metadata_records))
supervise_sound_example = supervise_sound read check protocol rounds child supervised

abbrev late_round : Round
late_round = record { late = true; received = Received.timeout; waited = ok none }

supervise-ends_example :
    supervise read check protocol begun (seen Received.timeout none ∷ late_round ∷ []) ≢ none
supervise-ends_example =
    supervise-ends read check protocol begun (seen Received.timeout none ∷ late_round ∷ []) refl

abbrev out : ChildExecution
out = record { metadata = []; measurements = measurements; resources = some usage; failure = none }

executed : execute (λ bytes. "") read check protocol (ok tt) rounds (err "not reaped") [] ≡ some out
unfolding execute accepted_bytes conclude completed_success supervise round receive take_line
    take_record wait_for_exit completed validate_record CpuProbe.is_valid CpuProbe.protocol_of
    CpuProbe.config_of
executed = refl

execute-IsOutcome_example : IsOutcome check protocol out
execute-IsOutcome_example =
    execute-IsOutcome (λ bytes. "") read check protocol (ok tt) rounds (err "not reaped") [] out
      executed

-- two lines, the second cut by the buffers
abbrev texts : List (List ℕ)
texts = (65 ∷ []) ∷ (66 ∷ 67 ∷ []) ∷ []

abbrev chunks : List (List ℕ)
chunks = (65 ∷ 10 ∷ 66 ∷ []) ∷ (67 ∷ 10 ∷ []) ∷ []

abbrev line_protocol : ChildProtocol
line_protocol = record {
  runtime_name = "example";
  expected_metadata_records = 0;
  expected_records = 2;
  max_record_bytes = 16;
  max_stdout_bytes = 32;
  maximum_runtime_seconds = 1;
  spawn_failure_code = "spawn";
  exit_failure_code = "exit";
  output_failure_code = "output";
  deadline_failure_code = "deadline";
  resource_failure_code = "resource";
  special_exit_codes = [];
}

read_stdout-lines_example :
    read_stdout line_protocol [] 0 (map (λ c. ok c) chunks)
    ≡ map (λ t. StdoutEvent.line t) texts ++ StdoutEvent.done ∷ []
read_stdout-lines_example =
    read_stdout-lines line_protocol texts chunks (ground arith) (ground arith) refl (omega arith)

resource_usage_from_components_iff_example :
    (resource_usage_from_components (pos 1) (pos 250000) (pos 0) (pos 250000) (pos 4) ≡ ok usage)
    ↔ Represents (pos 1) (pos 250000) (pos 0) (pos 250000) (pos 4) usage
resource_usage_from_components_iff_example =
    resource_usage_from_components_iff (pos 1) (pos 250000) (pos 0) (pos 250000) (pos 4) usage
