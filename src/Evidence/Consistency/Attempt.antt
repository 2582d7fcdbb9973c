-- ===== src/Evidence/Consistency/Attempt.antt =====
-- What the checks of an attempt's provenance and resources in crates/benchplane-core/src/evidence.rs
-- leave of them.
use benchplane.Base.{
  ℕ, ◌%◌, ◌≡◌, String, true, Option, none, some, List, Result, ok, arith, eq_iff, Result-cases, inl,
  inr,
}
use benchplane.Schema.Experiment.{ResolvedExperiment, RuntimeSpec}
use benchplane.Schema.Evidence.{RunState, AttemptProvenance, AttemptResources, RuntimeProvenance}
use benchplane.Schema.Measurement.{EvidenceManifest}
use benchplane.Evidence.Records.{Checked}
use benchplane.Evidence.Provenance.{
  has_helper, require_matching_generator, validate_runtime_provenance, validate_attempt_provenance,
  validate_attempt_resources,
}
use benchplane.Evidence.Consistency.{checked_record}

-- What an optional record is decoded to: nothing where its file is not there, and else a value that
-- has passed its check.
abbrev pub Decoded :
    {A : Type 0} → (List ℕ → Result A String) → (A → Type 0) → Option (List ℕ) → Option A → Type 0
Decoded decoder P none found = found ≡ none
Decoded {A} decoder P (some bytes) found = (a : A) × (decoder bytes ≡ ok a) × (found ≡ some a) × P a

abbrev pub generator_of : RuntimeProvenance → String
generator_of (RuntimeProvenance.local_fake g) = g
generator_of (RuntimeProvenance.cpu_probe g) = g
generator_of (RuntimeProvenance.llama_cpp g engine model backend) = g

-- the generator of the measurements, where there is one, is another's
abbrev pub SameGenerator : Option String → String → Type 0
SameGenerator none g = Unit
SameGenerator (some measured) g = measured ≡ g

abbrev pub IsAttemptProvenance : EvidenceManifest → Option String → AttemptProvenance → Type 0
IsAttemptProvenance manifest measured p =
    (p.run_id ≡ manifest.run_id)
    × (p.attempt_number ≡ 1)
    × SameGenerator measured (generator_of p.software.runtime)

abbrev pub IsAttemptResources : EvidenceManifest → ResolvedExperiment → AttemptResources → Type 0
IsAttemptResources manifest plan r =
    (r.run_id ≡ manifest.run_id)
    × (r.attempt_number ≡ 1)
    × (r.peak_rss_bytes % 1024 ≡ 0)
    × (has_helper plan.experiment.spec.provider plan.experiment.spec.runtime ≡ true)

require_matching_generator_lem :
    (g : String) (measured : Option String)
    → require_matching_generator g measured ≡ ok tt
    → SameGenerator measured g
unfolding require_matching_generator
require_matching_generator_lem g none h = tt
require_matching_generator_lem g (some m) h = ground (arith, eq_iff m g)

runtime_provenance_lem :
    (p : RuntimeProvenance) (r : RuntimeSpec) (status : RunState) (measured : Option String)
    → validate_runtime_provenance p r status measured ≡ ok tt
    → SameGenerator measured (generator_of p)
unfolding validate_runtime_provenance
runtime_provenance_lem (RuntimeProvenance.local_fake g) (RuntimeSpec.local_fake seed scenario)
      status measured h =
    require_matching_generator_lem g measured (ground arith)
runtime_provenance_lem (RuntimeProvenance.cpu_probe g) (RuntimeSpec.cpu_probe tokens units) status
      measured h =
    require_matching_generator_lem g measured (ground arith)
runtime_provenance_lem (RuntimeProvenance.llama_cpp g engine model backend)
      (RuntimeSpec.llama_cpp target m tokens) status measured h =
    require_matching_generator_lem g measured (ground arith)
runtime_provenance_lem (RuntimeProvenance.local_fake g) (RuntimeSpec.cpu_probe a b) status m h = cc
runtime_provenance_lem (RuntimeProvenance.local_fake g) (RuntimeSpec.llama_cpp a b c) status m h =
    cc
runtime_provenance_lem (RuntimeProvenance.local_fake g) (RuntimeSpec.vllm a b c) status m h = cc
runtime_provenance_lem (RuntimeProvenance.cpu_probe g) (RuntimeSpec.local_fake a b) status m h = cc
runtime_provenance_lem (RuntimeProvenance.cpu_probe g) (RuntimeSpec.llama_cpp a b c) status m h = cc
runtime_provenance_lem (RuntimeProvenance.cpu_probe g) (RuntimeSpec.vllm a b c) status m h = cc
runtime_provenance_lem (RuntimeProvenance.llama_cpp g x y z) (RuntimeSpec.local_fake a b) status m
      h =
    cc
runtime_provenance_lem (RuntimeProvenance.llama_cpp g x y z) (RuntimeSpec.cpu_probe a b) status m
      h =
    cc
runtime_provenance_lem (RuntimeProvenance.llama_cpp g x y z) (RuntimeSpec.vllm a b c) status m h =
    cc

pub provenance_lem :
    (p : AttemptProvenance) (manifest : EvidenceManifest) (plan : ResolvedExperiment)
    (measured : Option String)
    → validate_attempt_provenance p manifest plan measured ≡ ok tt
    → IsAttemptProvenance manifest measured p
unfolding validate_attempt_provenance
provenance_lem p manifest plan measured h = (
  ground (arith, eq_iff p.run_id manifest.run_id),
  ground arith,
  runtime_provenance_lem p.software.runtime plan.experiment.spec.runtime manifest.run_status
      measured (ground arith),
)

pub resources_lem :
    (r : AttemptResources) (manifest : EvidenceManifest) (plan : ResolvedExperiment)
    → validate_attempt_resources r manifest plan ≡ ok tt
    → IsAttemptResources manifest plan r
unfolding validate_attempt_resources
resources_lem r manifest plan h = ground (arith, eq_iff r.run_id manifest.run_id)

pub checked_record_lem :
    {A : Type 0} (P : A → Type 0) (decoder : List ℕ → Result A String) (path : String)
    (bytes : Option (List ℕ)) (check : A → Checked) (found : Option A)
    → ((a : A) → check a ≡ ok tt → P a)
    → checked_record decoder path bytes check ≡ some (ok found)
    → Decoded decoder P bytes found
checked_record_lem P decoder path none check found sound h = ground arith
checked_record_lem P decoder path (some bytes) check found sound h =
    elim (Result-cases (decoder bytes)) [
      | inr (e, undecoded) ↦ absurd (ground arith)
      | inl (a, readable) ↦ elim (Result-cases (check a)) [
        | inr (e, rejected) ↦ absurd (ground arith)
        | inl (u, passed) ↦ (a, readable, ground arith, sound a (ground arith))
      ]
    ]
