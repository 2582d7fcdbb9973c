-- ===== src/Evidence/Measurements/Accepts.antt =====
-- A file of valid records in order, written line by line, is accepted, and gives its records back.
use benchplane.Base.{
  ℕ, ◌+◌, ◌≤◌, ◌<◌, ◌≡◌, String, none, List, [], ◌∷◌, ◌++◌, map, concat, length, length-append, All,
  Result, ok, u32_mod, arith, eq_iff,
}
use mathlib.Core.List.{append_assoc, append-nil}
use benchplane.Schema.Experiment.{ResolvedExperiment}
use benchplane.Schema.Evidence.{RunState}
use benchplane.Schema.Measurement.{MeasurementRecord}
use benchplane.Evidence.Records.{expected_measurement_counts, validate_measurement_record}
use benchplane.Evidence.Lines.{IsPlain, strip_newline, without_return_plain, lines-concat}
use benchplane.Evidence.Measurements.{
  Progress, start, first_generator, read_record, read_records, validate_measurements,
  max_measurements_bytes,
}
use benchplane.Evidence.Measurements.Sequence.{ValidFrom, generator_after, IsReadable, written}

module _ (encode : MeasurementRecord → List ℕ) (decode : List ℕ → Result MeasurementRecord String)
    (plan : ResolvedExperiment) (warmups expected_total : ℕ) where
  read_record_lem :
      (p : Progress) (r : MeasurementRecord)
      → IsReadable encode decode r
      → p.total_bytes + length (encode r ++ 10 ∷ []) ≤ max_measurements_bytes
      → p.position < expected_total
      → validate_measurement_record r p.position warmups plan p.generator ≡ ok tt
      → read_record decode plan warmups expected_total p (encode r ++ 10 ∷ [])
        ≡ ok (record {
          total_bytes = p.total_bytes + length (encode r ++ 10 ∷ []);
          position = p.position + 1;
          generator = first_generator p.generator r.generator;
          records = p.records ++ r ∷ [];
        })
  unfolding read_record
  read_record_lem p r h fits before valid = ground (
    arith,
    strip_newline (encode r),
    without_return_plain (encode r) h.0,
    length-append (encode r) (10 ∷ []),
  )

  read_records_lem :
      (p : Progress) (rs : List MeasurementRecord)
      → All (IsReadable encode decode) rs
      → p.total_bytes + length (concat (written encode rs)) ≤ max_measurements_bytes
      → p.position + length rs ≤ expected_total
      → ValidFrom plan warmups p.position p.generator rs
      → read_records decode plan warmups expected_total p (written encode rs)
        ≡ ok (record {
          total_bytes = p.total_bytes + length (concat (written encode rs));
          position = p.position + length rs;
          generator = generator_after p.generator rs;
          records = p.records ++ rs;
        })
  unfolding read_records
  read_records_lem p [] h fits before valid = ground (arith, append-nil p.records)
  read_records_lem p (r ∷ rs) h fits before valid =
      let line = encode r ++ 10 ∷ [] in
      let size = length-append line (concat (written encode rs)) in
      let q : Progress = record {
        total_bytes = p.total_bytes + length line;
        position = p.position + 1;
        generator = first_generator p.generator r.generator;
        records = p.records ++ r ∷ [];
      } in
      rw (read_record_lem p r h.0 (omega (arith, size)) (omega arith) valid.0) (
        ground (
          arith,
          size,
          append_assoc p.records (r ∷ []) rs,
          read_records_lem q rs h.1 (omega (arith, size)) (omega arith) valid.1,
        ))

written-IsPlain :
    (encode : MeasurementRecord → List ℕ) (decode : List ℕ → Result MeasurementRecord String)
    (rs : List MeasurementRecord)
    → All (IsReadable encode decode) rs
    → All IsPlain (map encode rs)
written-IsPlain encode decode [] h = tt
written-IsPlain encode decode (r ∷ rs) h = (h.0.0, written-IsPlain encode decode rs h.1)

-- A file within its size limit, with the digest that is expected of it, whose lines are the JSON
-- texts of as many records as the plan and the terminal status ask for, each valid at its
-- place, passes the check: the result is these records, their generator and the measured count.
pub validate_measurements_lem :
    (encode : MeasurementRecord → List ℕ) (decode : List ℕ → Result MeasurementRecord String)
    (digest : List ℕ → String) (plan : ResolvedExperiment) (status : RunState)
    (warmups measured : ℕ) (rs : List MeasurementRecord)
    → All (IsReadable encode decode) rs
    → length (concat (written encode rs)) ≤ max_measurements_bytes
    → expected_measurement_counts plan status ≡ ok (warmups, measured)
    → warmups + measured < u32_mod
    → length rs ≡ warmups + measured
    → ValidFrom plan warmups 0 none rs
    → validate_measurements decode digest
        (concat (written encode rs))
        (digest (concat (written encode rs)))
        plan
        status
      ≡ ok (record {
        measured_records = measured;
        generator = generator_after none rs;
        records = rs;
      })
unfolding validate_measurements
validate_measurements_lem encode decode digest plan status warmups measured rs h fits counts total
      same valid =
    let content = concat (written encode rs) in
    ground (
      arith,
      counts,
      lines-concat (map encode rs) (written-IsPlain encode decode rs h),
      read_records_lem encode decode plan warmups (warmups + measured) start rs h
          (omega (arith, fits)) (omega (arith, same)) valid,
      eq_iff (digest content) (digest content),
    )
