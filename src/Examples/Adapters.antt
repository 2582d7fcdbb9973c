-- ===== src/Examples/Adapters.antt =====
-- The adapters of the two helpers, at concrete records.
use benchplane.Base.{
  All, pos, true, false, Option, ◌∷◌, ℕ, ◌+◌, ◌≡◌, ◌↔◌, refl, String, none, some, List, [], length,
  Result, ok, err, arith,
}
use benchplane.Schema.Experiment.{
  LlamaCppTarget, cpu_probe_generator_version, llama_cpp_generator_version,
  llama_cpp_model_identity,
}
use benchplane.Schema.Evidence.{ProcessResources}
use benchplane.Schema.Measurement.{MeasurementRecord, MeasurementPhase}
use benchplane.Evidence.Records.{
  expected_measurement_counts, validate_measurement_record, validate_llama_v2_aggregate_consistency,
}
use benchplane.Evidence.Measurements.Sequence.{ValidFrom}
use benchplane.ChildSupervisor.Protocol.{ChildExecution}
use benchplane.ChildSupervisor.Outcome.{IsOutcome}
use benchplane.ChildSupervisor
use benchplane.ChildSupervisor.{accepted_bytes, conclude, completed_success}
use benchplane.ChildSupervisor.Protocol.{ReapedChild, StdoutEvent}
use benchplane.ChildSupervisor.Supervise.{
  Round, Received, supervise, round, receive, take_line, take_record, wait_for_exit, completed,
}
use benchplane.CpuProbe.Execute.{execute, execute_probe-ValidFrom}
use benchplane.Examples.Schemas.{probe_accepted}
use benchplane.CpuProbe
use benchplane.CpuProbe.Agrees.{probe_record_iff}
use benchplane.CpuProbe.Verifies.{into_execution_output-ValidFrom}
use benchplane.LlamaCpp
use benchplane.LlamaCpp.Agrees.{helper_record_iff}
use benchplane.LlamaCpp.Metadata.{NvidiaMetadataRecord, into_execution_output}
use benchplane.LlamaCpp.Outcome.{IsOutput, into_execution_output-IsOutput}
use benchplane.Execution.{ExecutionOutput}
use benchplane.Examples.Plans.{probe_plan, llama_plan, decode, sample, samples, observations}

abbrev probe_config : CpuProbe.CpuProbeConfig
probe_config = CpuProbe.config_of probe_plan.experiment.spec 4 1000

abbrev llama_config : LlamaCpp.LlamaCppConfig
llama_config = LlamaCpp.config_of llama_plan.experiment.spec LlamaCppTarget.cpu 4

abbrev probe_record : MeasurementRecord
probe_record = sample cpu_probe_generator_version MeasurementPhase.measured 1 []

abbrev llama_record : MeasurementRecord
llama_record = sample llama_cpp_generator_version MeasurementPhase.measured 1 observations

probe_record_iff_example :
    (validate_measurement_record probe_record 1 1 probe_plan (some cpu_probe_generator_version)
      ≡ ok tt)
    ↔ ((CpuProbe.validate_record probe_record 1 probe_config ≡ ok tt)
        × (probe_record.request_observations ≡ []))
unfolding CpuProbe.config_of
probe_record_iff_example =
    probe_record_iff probe_plan 4 1000 1 (some cpu_probe_generator_version) probe_record refl
      (omega arith) refl

helper_record_iff_example :
    (validate_measurement_record llama_record 1 1 llama_plan (some llama_cpp_generator_version)
      ≡ ok tt)
    ↔ ((LlamaCpp.validate_record llama_record 1 llama_config ≡ ok tt)
        × (validate_llama_v2_aggregate_consistency llama_record ≡ ok tt))
unfolding LlamaCpp.config_of
helper_record_iff_example =
    helper_record_iff llama_plan LlamaCppTarget.cpu llama_cpp_model_identity 4 1
      (some llama_cpp_generator_version) llama_record refl (omega arith) (omega arith) refl refl

abbrev usage : ProcessResources
usage = record { cpu_time_micros = 1500000; peak_rss_bytes = 4096 }

abbrev probe_child : ChildExecution
probe_child = record {
  metadata = [];
  measurements = samples cpu_probe_generator_version [];
  resources = some usage;
  failure = none;
}

probe_outcome :
    IsOutcome
      (λ r i. CpuProbe.validate_record r i probe_config)
      (CpuProbe.protocol_of probe_config 3)
      probe_child
unfolding CpuProbe.config_of CpuProbe.protocol_of CpuProbe.validate_record
probe_outcome = IsOutcome.success usage refl refl refl refl (refl, (refl, (refl, tt)))

into_execution_output-ValidFrom_example :
    (warmups measured : ℕ) × (expected_measurement_counts probe_plan
        (CpuProbe.into_execution_output probe_child).terminal_state
      ≡ ok (warmups, measured))
    × (length (CpuProbe.into_execution_output probe_child).measurements ≡ warmups + measured)
    × ValidFrom probe_plan warmups 0 none (CpuProbe.into_execution_output probe_child).measurements
into_execution_output-ValidFrom_example =
    into_execution_output-ValidFrom probe_plan 4 1000 probe_child refl refl (omega arith)
      probe_outcome (ground arith)

abbrev llama_child : ChildExecution
llama_child = record probe_child { measurements = samples llama_cpp_generator_version observations }

abbrev no_decoder : List ℕ → Result NvidiaMetadataRecord String
no_decoder bytes = err "not metadata"

llama_outcome :
    IsOutcome
      (λ r i. LlamaCpp.validate_record r i llama_config)
      (LlamaCpp.protocol_of llama_config 3)
      llama_child
unfolding LlamaCpp.config_of LlamaCpp.protocol_of LlamaCpp.validate_record
    LlamaCpp.observations_valid CpuProbe.expected_place
llama_outcome = IsOutcome.success usage refl refl refl refl (refl, (refl, (refl, tt)))

into_execution_output-IsOutput_example :
    IsOutput llama_config 3 (into_execution_output no_decoder llama_child llama_config)
into_execution_output-IsOutput_example =
    into_execution_output-IsOutput no_decoder llama_config 3 llama_child llama_outcome

abbrev exited : ReapedChild
exited = record {
  status = record { success = true; code = some (pos 0); display = "exit status: 0" };
  resources = ok usage;
}

abbrev seen : Received → Option ReapedChild → Round
seen received waited = record { late = false; received = received; waited = ok waited }

abbrev rounds : List Round
rounds =
    seen (Received.event (StdoutEvent.line (87 ∷ 49 ∷ []))) none
    ∷ seen (Received.event (StdoutEvent.line (77 ∷ 49 ∷ []))) none
    ∷ seen (Received.event (StdoutEvent.line (77 ∷ 50 ∷ []))) (some exited)
    ∷ seen (Received.event StdoutEvent.done) none
    ∷ []

abbrev read : List ℕ → Result MeasurementRecord String
read = decode cpu_probe_generator_version

probe_ended :
    execute (λ bytes. "") read (ok tt) rounds (err "not reaped") [] probe_config
    ≡ some (CpuProbe.into_execution_output probe_child)
unfolding execute ChildSupervisor.execute accepted_bytes conclude completed_success supervise round
    receive take_line take_record wait_for_exit completed CpuProbe.validate_record CpuProbe.is_valid
    CpuProbe.protocol_of CpuProbe.config_of CpuProbe.expected_record_count CpuProbe.expected_place
probe_ended = refl

abbrev probe_output : ExecutionOutput
probe_output = CpuProbe.into_execution_output probe_child

probe_bare : All (λ r. r.request_observations ≡ []) probe_output.measurements
unfolding CpuProbe.into_execution_output
probe_bare = ground arith

execute_probe-ValidFrom_example :
    (warmups measured : ℕ) × (expected_measurement_counts probe_plan probe_output.terminal_state
      ≡ ok (warmups, measured))
    × (length probe_output.measurements ≡ warmups + measured)
    × ValidFrom probe_plan warmups 0 none probe_output.measurements
execute_probe-ValidFrom_example =
    execute_probe-ValidFrom (λ bytes. "") read (ok tt) rounds (err "not reaped") [] probe_plan 4
      1000 probe_output refl refl probe_accepted probe_ended probe_bare
