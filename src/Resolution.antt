-- ===== src/Resolution.antt =====
-- crates/benchplane-core/src/resolution.rs: the plan of a validated experiment and its digests.
-- serde's encoder of an experiment and of a plan's content, and the hexadecimal SHA-256 digest,
-- are parameters.
pub mod Digests
use Prim.Native.String.{◌++◌}
use benchplane.Base.{ℕ, String, List, Result, ok, err, ◌>>=◌, ◌>>◌}
use benchplane.Schema.Experiment.{Experiment, ResolvedExperiment, api_version}
use benchplane.Schema.Validate.{ValidationError, validate}

pub data ResolutionError : Type 0 where
  validation : List ValidationError → ResolutionError
  deterministic_serialization : String → ResolutionError

pub record ResolvedPlanContent : Type 0 where
  pub api_version : String
  pub kind : String
  pub experiment : Experiment
  pub experiment_digest : String

-- `map_err(ResolutionError::Validation)`
abbrev pub validated : Result (Unit {0}) (List ValidationError) → Result (Unit {0}) ResolutionError
validated (ok u) = ok u
validated (err errors) = err (validation errors)

-- `map_err(ResolutionError::DeterministicSerialization)`
abbrev pub serialized : Result (List ℕ) String → Result (List ℕ) ResolutionError
serialized (ok bytes) = ok bytes
serialized (err e) = err (deterministic_serialization e)

-- `sha256_digest`, on the digits of the digest
abbrev pub prefixed : String → String
prefixed digits = "sha256:" ++ digits

abbrev pub content_of : Experiment → String → ResolvedPlanContent
content_of e digest = record {
  api_version = api_version;
  kind = "ResolvedExperiment";
  experiment = e;
  experiment_digest = digest;
}

abbrev pub plan_of : Experiment → String → String → ResolvedExperiment
plan_of e digest plan_digest = record {
  api_version = api_version;
  kind = "ResolvedExperiment";
  experiment = e;
  experiment_digest = digest;
  resolved_plan_digest = plan_digest;
}

module _ (encode : Experiment → Result (List ℕ) String)
    (encode_content : ResolvedPlanContent → Result (List ℕ) String) (sha256 : List ℕ → String) where
  unfoldable pub sha256_digest : List ℕ → String
  sha256_digest bytes = prefixed (sha256 bytes)

  unfoldable pub resolve_experiment : Experiment → Result ResolvedExperiment ResolutionError
  unfolding sha256_digest
  resolve_experiment e = do
    validated (validate e)
    experiment_bytes ← serialized (encode e)
    let experiment_digest = sha256_digest experiment_bytes
    plan_bytes ← serialized (encode_content (content_of e experiment_digest))
    ok (plan_of e experiment_digest (sha256_digest plan_bytes))
