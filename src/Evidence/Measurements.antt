-- ===== src/Evidence/Measurements.antt =====
-- `validate_measurements` of crates/benchplane-core/src/evidence.rs: the pass over
-- attempts/0001/measurements.jsonl. The file is its bytes, and their number stands for the size that
-- the metadata gives; the JSON decoder and the hexadecimal SHA-256 digest are parameters.
pub mod Sequence
pub mod Accepts
pub mod Rejects
use benchplane.Base.{
  ℕ, ◌+◌, String, Bool, true, false, not, ◌||◌, Option, none, some, List, [], ◌∷◌, ◌++◌, length,
  ltb, leb, ◌==◌, str_eq, if◌then◌else◌, checked_add_u32, checked, u64_mod, Result, ok, err, ok_or,
  fail_if, ◌>>=◌, ◌>>◌, decimal, format,
}
use benchplane.Schema.Experiment.{ResolvedExperiment}
use benchplane.Schema.Evidence.{RunState}
use benchplane.Schema.Measurement.{MeasurementRecord}
use benchplane.Evidence.Error.{EvidenceError}
use benchplane.Evidence.Records.{expected_measurement_counts, validate_measurement_record}
use benchplane.Evidence.Lines.{lines, strip_last, without_return}
use benchplane.Execution.{is_empty}

abbrev pub max_measurements_bytes : ℕ
max_measurements_bytes = 8388608

abbrev pub max_measurement_line_bytes : ℕ
max_measurement_line_bytes = 65536

abbrev pub measurements_path : String
measurements_path = "attempts/0001/measurements.jsonl"

pub record MeasurementValidation : Type 0 where
  pub measured_records : ℕ  -- u32
  pub generator : Option String
  pub records : List MeasurementRecord

-- the variables of the loop
pub record Progress : Type 0 where
  pub total_bytes : ℕ  -- u64
  pub position : ℕ  -- u32
  pub generator : Option String
  pub records : List MeasurementRecord

abbrev pub start : Progress
start = record { total_bytes = 0; position = 0; generator = none; records = [] }

-- `if generator.is_none() { generator = Some(record.generator.clone()); }`
abbrev pub first_generator : Option String → String → Option String
first_generator none g = some g
first_generator (some f) g = some f

-- `map_err` on the decoder's error
abbrev pub decoded : Result MeasurementRecord String → Result MeasurementRecord EvidenceError
decoded (ok r) = ok r
decoded (err e) = err (EvidenceError.invalid_record measurements_path e)

module _ (decode : List ℕ → Result MeasurementRecord String) (plan : ResolvedExperiment)
    (warmups expected_total : ℕ) where
  -- one round of the loop, on one line with its newline
  unfoldable pub read_record : Progress → List ℕ → Result Progress EvidenceError
  read_record p line = do
    total ←
        ok_or (checked u64_mod (p.total_bytes + length line))
          (EvidenceError.invalid_measurements "file size overflowed")
    fail_if (ltb max_measurements_bytes total)
        (EvidenceError.invalid_measurements "measurement payload exceeds its parsing limit")
    fail_if (ltb max_measurement_line_bytes (length line))
        (EvidenceError.invalid_measurements "measurement record exceeds its line bound")
    unterminated ←
        ok_or (strip_last 10 line)
          (EvidenceError.invalid_measurements "measurement JSONL ends with a truncated record")
    let body = without_return unterminated
    fail_if (is_empty body || leb expected_total p.position)
        (EvidenceError.invalid_measurements "measurement sequence has an empty or extra record")
    r ← decoded (decode body)
    validate_measurement_record r p.position warmups plan p.generator
    ok (record {
      total_bytes = total;
      position = p.position + 1;
      generator = first_generator p.generator r.generator;
      records = p.records ++ r ∷ [];
    })

  unfoldable pub read_records : Progress → List (List ℕ) → Result Progress EvidenceError
  read_records p [] = ok p
  read_records p (line ∷ rest) = read_record p line >>= λ q. read_records q rest

-- After its last round the loop has hashed every line, that is, the whole file.
module _ (decode : List ℕ → Result MeasurementRecord String) (digest : List ℕ → String) where
  unfoldable pub validate_measurements :
      List ℕ → String → ResolvedExperiment → RunState → Result MeasurementValidation EvidenceError
  validate_measurements content expected_digest plan status = do
    fail_if (ltb max_measurements_bytes (length content)) (
        EvidenceError.invalid_measurements (
          format (
            measurements_path
            ∷ " exceeds the "
            ∷ decimal max_measurements_bytes
            ∷ "-byte parsing limit"
            ∷ [])))
    (warmups, measured) ← expected_measurement_counts plan status
    expected_total ←
        ok_or (checked_add_u32 warmups measured)
          (EvidenceError.invalid_measurements "record count overflowed")
    p ← read_records decode plan warmups expected_total start (lines content)
    fail_if (not (str_eq (digest content) expected_digest))
        (EvidenceError.checksum_mismatch measurements_path)
    fail_if (not (p.position == expected_total)) (
        EvidenceError.invalid_measurements (
          format (
            "measurement sequence has "
            ∷ decimal p.position
            ∷ " records; expected "
            ∷ decimal expected_total
            ∷ [])))
    ok (record { measured_records = measured; generator = p.generator; records = p.records })
