-- ===== src/Examples/Measurements.antt =====
-- The verification of measurements and reports, at the output of a local-fake run.
use benchplane.Base.{
  ℕ, ◌+◌, ◌≡◌, refl, String, none, some, List, [], length, concat, Result, ok, true, to_be_bytes,
  as_bytes, arith,
}
use benchplane.Schema.Experiment.{LocalFakeScenario, local_fake_generator_version}
use benchplane.Schema.Evidence.{RunState, is_terminal, run_state_eq}
use benchplane.Schema.Measurement.{RunSummary, MeasurementRecord, ValidityResult}
use benchplane.Execution.{ExecutionOutput, evaluate_validity, summarize}
use benchplane.Evidence.Records.{
  expected_measurement_counts, validate_measurement_record, aggregate_mismatch,
  validate_runtime_contract,
}
use benchplane.Evidence.Measurements.{
  MeasurementValidation, validate_measurements, read_record, read_records,
}
use benchplane.Evidence.Lines.{lines, strip_last, without_return}
use benchplane.Evidence.Measurements.Sequence.{ValidFrom, generator_after, written}
use benchplane.Evidence.Measurements.Accepts.{validate_measurements_lem}
use benchplane.Evidence.Measurements.Rejects.{validate_measurements_sound}
use benchplane.Evidence.Reports.{check_validity, check_summary}
use benchplane.Evidence.Reports.Consistent.{reports-consistent}
use benchplane.LocalFake.{execute, measured_count, components}
use benchplane.LocalFake.Verifies.{execute-ValidFrom}
use benchplane.LocalFake.Message.{Key, IsKey, message-injective}
use benchplane.Run.{manifest_of}
use benchplane.Examples.Plans.{fake_plan, samples, encode, decode}

-- the identity in place of SHA-256
abbrev fake_output : ExecutionOutput
fake_output = execute (λ m. m) fake_plan 7 LocalFakeScenario.success

execute-ValidFrom_example :
    (expected_measurement_counts fake_plan fake_output.terminal_state
      ≡ ok (1, measured_count LocalFakeScenario.success 2))
    × (length fake_output.measurements ≡ 1 + measured_count LocalFakeScenario.success 2)
    × ValidFrom fake_plan 1 0 none fake_output.measurements
execute-ValidFrom_example =
    execute-ValidFrom (λ m. m) fake_plan 7 LocalFakeScenario.success refl refl

complete : length fake_output.measurements ≡ 3
unfolding measured_count
complete = execute-ValidFrom_example.1

fake_terminal : is_terminal fake_output.terminal_state ≡ true
unfolding is_terminal execute
fake_terminal = refl

abbrev validation : MeasurementValidation
validation = record {
  measured_records = 2;
  generator = some local_fake_generator_version;
  records = fake_output.measurements;
}

reports-consistent_example :
    (v : ValidityResult) × (evaluate_validity fake_plan fake_output "run-1" ≡ some v)
    × (check_validity fake_plan (manifest_of fake_plan fake_output v "run-1") validation v
        ≡ some (ok tt))
    × ((z : RunSummary) × (summarize fake_plan fake_output v "run-1" ≡ some z)
        × (check_summary (manifest_of fake_plan fake_output v "run-1") validation z ≡ some (ok tt)))
reports-consistent_example =
    reports-consistent fake_plan fake_output "run-1" 1 2 (some local_fake_generator_version)
      execute-ValidFrom_example.2 complete (omega arith) fake_terminal

abbrev records : List MeasurementRecord
records = samples local_fake_generator_version []

abbrev read : List ℕ → Result MeasurementRecord String
read = decode local_fake_generator_version

records_valid : ValidFrom fake_plan 1 0 none records
unfolding validate_measurement_record aggregate_mismatch validate_runtime_contract
records_valid = (refl, (refl, (refl, tt)))

records_expected : expected_measurement_counts fake_plan RunState.succeeded ≡ ok (1, 2)
unfolding expected_measurement_counts run_state_eq
records_expected = refl

abbrev digest : List ℕ → String
digest bytes = "digest"

abbrev content : List ℕ
content = concat (written encode records)

validate_measurements_lem_example :
    validate_measurements read digest content "digest" fake_plan RunState.succeeded
    ≡ ok (record {
      measured_records = 2;
      generator = generator_after none records;
      records = records;
    })
validate_measurements_lem_example =
    validate_measurements_lem encode read digest fake_plan RunState.succeeded 1 2 records
      (ground arith) (omega arith) records_expected (omega arith) refl records_valid

accepted :
    validate_measurements read digest content "digest" fake_plan RunState.succeeded
    ≡ ok (record {
      measured_records = 2;
      generator = generator_after none records;
      records = records;
    })
unfolding validate_measurements read_records read_record lines strip_last without_return
    validate_measurement_record aggregate_mismatch validate_runtime_contract
    expected_measurement_counts run_state_eq
accepted = refl

validate_measurements_sound_example :
    (warmups : ℕ) × (expected_measurement_counts fake_plan RunState.succeeded ≡ ok (warmups, 2))
    × (digest content ≡ "digest")
    × (length records ≡ warmups + 2)
    × ValidFrom fake_plan warmups 0 none records
    × (generator_after none records ≡ generator_after none records)
validate_measurements_sound_example =
    validate_measurements_sound read digest fake_plan RunState.succeeded content "digest"
      (record { measured_records = 2; generator = generator_after none records; records = records })
      accepted

abbrev key : Key
key = record {
  plan_digest = "sha256:plan";
  seed = 7;
  phase = "measured";
  repetition_index = 1;
  sample_index = 1;
  metric_tag = "latencyMicros";
}

key_fits : IsKey key
unfolding components to_be_bytes as_bytes
key_fits = record {
  seed_fits = omega arith;
  repetition_fits = omega arith;
  sample_fits = omega arith;
  texts_fit = ground arith;
}

message-injective_example :
    (key.seed ≡ key.seed)
    × (key.repetition_index ≡ key.repetition_index)
    × (key.sample_index ≡ key.sample_index)
    × (as_bytes "sha256:plan" ≡ as_bytes "sha256:plan")
    × (as_bytes "measured" ≡ as_bytes "measured")
    × (as_bytes "latencyMicros" ≡ as_bytes "latencyMicros")
message-injective_example = message-injective key key key_fits key_fits refl
