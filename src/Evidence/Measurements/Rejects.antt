-- ===== src/Evidence/Measurements/Rejects.antt =====
-- What an accepted measurements file holds, whatever its bytes and whoever wrote it.
use benchplane.Base.{
  ℕ, ◌+◌, ◌≡◌, sym, subst, ap, ◌∙◌, String, none, List, [], ◌∷◌, ◌++◌, length, Result, ok, arith,
  eq_iff, Result-cases, Option-cases, inl, inr,
}
use mathlib.Core.List.{append_assoc, append-nil}
use benchplane.Schema.Experiment.{ResolvedExperiment}
use benchplane.Schema.Evidence.{RunState}
use benchplane.Schema.Measurement.{MeasurementRecord}
use benchplane.Evidence.Records.{expected_measurement_counts, validate_measurement_record}
use benchplane.Evidence.Lines.{lines, strip_last, without_return}
use benchplane.Evidence.Measurements.{
  Progress, MeasurementValidation, start, first_generator, read_record, read_records,
  validate_measurements,
}
use benchplane.Evidence.Measurements.Sequence.{ValidFrom, generator_after}

module _ (decode : List ℕ → Result MeasurementRecord String) (plan : ResolvedExperiment)
    (warmups expected_total : ℕ) where
  -- what a round that goes on has done to the variables
  Advances : Progress → Progress → Type 0
  Advances p q =
      (r : MeasurementRecord) × (validate_measurement_record r p.position warmups plan p.generator
        ≡ ok tt)
      × (q.position ≡ p.position + 1)
      × (q.generator ≡ first_generator p.generator r.generator)
      × (q.records ≡ p.records ++ r ∷ [])

  read_record-Advances :
      (p q : Progress) (line : List ℕ)
      → read_record decode plan warmups expected_total p line ≡ ok q
      → Advances p q
  unfolding read_record Advances
  read_record-Advances p q line h = elim (Option-cases (strip_last 10 line)) [
    | inl missing ↦ absurd (ground arith)
    | inr (l, stripped) ↦ elim (Result-cases (decode (without_return l))) [
      | inr (e, undecoded) ↦ absurd (ground arith)
      | inl (r, readable) ↦ (r, ground arith, ground arith, ground arith, ground arith)
    ]
  ]

  read_records-ValidFrom :
      (p q : Progress) (content : List (List ℕ))
      → read_records decode plan warmups expected_total p content ≡ ok q
      → (rs : List MeasurementRecord) × ValidFrom plan warmups p.position p.generator rs
        × (q.position ≡ p.position + length rs)
        × (q.generator ≡ generator_after p.generator rs)
        × (q.records ≡ p.records ++ rs)
  unfolding read_records Advances
  read_records-ValidFrom p q [] h =
      ([], tt, ground arith, ground arith, ground (arith, append-nil p.records))
  read_records-ValidFrom p q (line ∷ rest) h =
      elim (Result-cases (read_record decode plan warmups expected_total p line)) [
        | inr (e, stopped) ↦ absurd (ground arith)
        | inl (p', gone_on) ↦
            let (r, valid, position, generator, records) = read_record-Advances p p' line gone_on in
            let (rs, later, position', generator', records') =
              read_records-ValidFrom p' q rest (ground arith) in
            (
              r ∷ rs,
              (
                valid,
                subst (λ g. ValidFrom plan warmups (p.position + 1) g rs) generator
                    (subst (λ n. ValidFrom plan warmups n p'.generator rs) position later),
              ),
              ground arith,
              generator' ∙ ap (λ g. generator_after g rs) generator,
              ground (arith, append_assoc p.records (r ∷ []) rs),
            )
      ]

-- Whoever wrote an accepted file, and whatever the decoder and the digest do: the terminal status
-- has expected counts, the digest of the bytes is the expected one, the records given back are as
-- many as expected, each is valid at its place, and the generator given back is the first one's.
pub validate_measurements_sound :
    (decode : List ℕ → Result MeasurementRecord String) (digest : List ℕ → String)
    (plan : ResolvedExperiment) (status : RunState) (content : List ℕ) (expected_digest : String)
    (result : MeasurementValidation)
    → validate_measurements decode digest content expected_digest plan status ≡ ok result
    → (warmups : ℕ) × (expected_measurement_counts plan status
        ≡ ok (warmups, result.measured_records))
      × (digest content ≡ expected_digest)
      × (length result.records ≡ warmups + result.measured_records)
      × ValidFrom plan warmups 0 none result.records
      × (result.generator ≡ generator_after none result.records)
unfolding validate_measurements
validate_measurements_sound decode digest plan status content expected_digest result h =
    elim (Result-cases (expected_measurement_counts plan status)) [
      | inr (e, unsupported) ↦ absurd (ground arith)
      | inl ((warmups, measured), counts) ↦
          elim (Result-cases
            (read_records decode plan warmups (warmups + measured) start (lines content))) [
              | inr (e, stopped) ↦ absurd (ground arith)
              | inl (q, done) ↦
                  let (rs, valid, position, generator, records) =
                    read_records-ValidFrom decode plan warmups (warmups + measured) start q
                      (lines content) done in
                  let facts : (result.measured_records ≡ measured)
                      × (digest content ≡ expected_digest)
                      × (result.records ≡ rs)
                      × (length rs ≡ warmups + measured)
                      × (result.generator ≡ generator_after none rs) =
                    ground (arith, eq_iff (digest content) expected_digest) in
                  (
                    warmups,
                    ground arith,
                    facts.1,
                    ground arith,
                    subst (λ l. ValidFrom plan warmups 0 none l) (sym facts.2) valid,
                    ground arith,
                  )
            ]
    ]
