-- ===== src/Evidence/Measurements/Sequence.antt =====
-- What the verifier's loop over measurement records amounts to, apart from bytes: every record
-- is valid at its position, behind the generator of the first one.
use benchplane.Base.{
  ℕ, ◌+◌, ◌≤◌, ◌≡◌, ◌≢◌, subst, arith, String, Option, List, [], ◌∷◌, ◌++◌, map, length, Result, ok,
}
use benchplane.Schema.Experiment.{ResolvedExperiment}
use benchplane.Schema.Measurement.{MeasurementRecord}
use benchplane.Evidence.Records.{validate_measurement_record}
use benchplane.Evidence.Lines.{IsPlain}
use benchplane.Evidence.Measurements.{first_generator, max_measurement_line_bytes}

abbrev pub ValidFrom : ResolvedExperiment → ℕ → ℕ → Option String → List MeasurementRecord → Type 0
ValidFrom plan warmups position generator [] = Unit
ValidFrom plan warmups position generator (r ∷ rs) =
    (validate_measurement_record r position warmups plan generator ≡ ok tt)
    × ValidFrom plan warmups (position + 1) (first_generator generator r.generator) rs

abbrev pub generator_after : Option String → List MeasurementRecord → Option String
generator_after generator [] = generator
generator_after generator (r ∷ rs) = generator_after (first_generator generator r.generator) rs

-- The records of two parts are valid in sequence if each part is valid at its place.
pub ValidFrom-append :
    (plan : ResolvedExperiment) (warmups position : ℕ) (generator : Option String)
    (xs ys : List MeasurementRecord)
    → ValidFrom plan warmups position generator xs
    → ValidFrom plan warmups (position + length xs) (generator_after generator xs) ys
    → ValidFrom plan warmups position generator (xs ++ ys)
ValidFrom-append plan warmups position generator [] ys hx hy =
    subst (λ n. ValidFrom plan warmups n generator ys) (omega arith) hy
ValidFrom-append plan warmups position generator (r ∷ xs) ys hx hy = (
  hx.0,
  ValidFrom-append plan warmups (position + 1) (first_generator generator r.generator) xs ys hx.1 (
      subst
        (λ n.
          ValidFrom plan warmups n (generator_after (first_generator generator r.generator) xs) ys)
        (omega arith) hy),
)

-- A writer of records and what the reader relies on in each line: the JSON text of a record is
-- not empty, holds no line end, is short, and decodes to the record.
module _ (encode : MeasurementRecord → List ℕ)
    (decode : List ℕ → Result MeasurementRecord String) where
  abbrev pub IsReadable : MeasurementRecord → Type 0
  IsReadable r =
      IsPlain (encode r)
      × (encode r ≢ [])
      × (length (encode r) + 1 ≤ max_measurement_line_bytes)
      × (decode (encode r) ≡ ok r)

-- `append_json_line` for each record, on an empty file
abbrev pub written : (MeasurementRecord → List ℕ) → List MeasurementRecord → List (List ℕ)
written encode rs = map (λ t. t ++ 10 ∷ []) (map encode rs)
