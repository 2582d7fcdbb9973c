-- ===== src/Evidence/Manifest.antt =====
-- Of crates/benchplane-core/src/evidence.rs the checks of the manifest, of the required payloads
-- and of the two identifiers, and the limits of the payloads that are kept in memory. The crate
-- `uuid` is a parameter.
use benchplane.Base.{
  ℕ, String, Bool, true, false, not, ◌&&◌, ◌||◌, Option, none, some, List, [], ◌∷◌, length, all,
  any, ◌==◌, str_eq, if◌then◌else◌, is_some_and, in_range, as_bytes, ok, fail_if, ◌>>◌,
}
use benchplane.Schema.Text.{is_blank, is_ascii_digit, strip_prefix}
use benchplane.Schema.Experiment.{evidence_format_v1}
use benchplane.Schema.Evidence.{is_terminal}
use benchplane.Schema.Measurement.{EvidenceManifest}
use benchplane.Evidence.Error.{EvidenceError}
use benchplane.Evidence.Records.{Checked}

-- `is_ascii_digit() || (b'a'..=b'f').contains(&byte)`
abbrev pub is_lower_hex : ℕ → Bool
is_lower_hex b = is_ascii_digit b || in_range 97 102 b

abbrev pub is_hex_digest : List ℕ → Bool
is_hex_digest digest = length digest == 64 && all is_lower_hex digest

unfoldable pub is_sha256_digest : String → Bool
unfolding strip_prefix
is_sha256_digest value =
    is_some_and (strip_prefix (as_bytes "sha256:") (as_bytes value)) is_hex_digest

-- what `is_run_id` calls of the crate `uuid`
pub record Uuids : Type 1 where
  pub Uuid : Type 0
  pub parse_str : List ℕ → Option Uuid
  pub hyphenated : Uuid → List ℕ
  pub get_version_num : Uuid → ℕ
  pub is_rfc4122 : Uuid → Bool

-- the derived `==` of texts, on their bytes
unfoldable pub bytes_eq : List ℕ → List ℕ → Bool
bytes_eq [] [] = true
bytes_eq (a ∷ s) (b ∷ t) = a == b && bytes_eq s t
bytes_eq _ _ = false

abbrev pub max_identity_record_bytes : ℕ
max_identity_record_bytes = 1048576

unfoldable pub retained_limit : String → Option ℕ
retained_limit relative =
    if str_eq relative "manifest.json"
    then some 65536
    else if any (str_eq relative) (
        "run.json" ∷ "attempts/0001/attempt.json" ∷ "validity.json" ∷ "summary.json"
        ∷ "events.jsonl" ∷ [])
    then some max_identity_record_bytes
    else if str_eq relative "attempts/0001/provenance.json"
    then some 16384
    else if str_eq relative "attempts/0001/resources.json"
    then some 4096
    else if str_eq relative "experiment.yaml"
    then some 65536
    else if str_eq relative "resolved-plan.json"
    then some 65536
    else none

abbrev pub required_paths : List String
required_paths =
    "experiment.yaml" ∷ "resolved-plan.json" ∷ "run.json" ∷ "events.jsonl" ∷ "validity.json"
    ∷ "summary.json" ∷ "manifest.json" ∷ "attempts/0001/attempt.json"
    ∷ "attempts/0001/measurements.jsonl" ∷ []

-- `BTreeSet::contains`
abbrev pub contains : List String → String → Bool
contains names name = any (str_eq name) names

-- the `for` loop of `validate_required_payloads`
unfoldable pub require_payloads : List String → List String → Checked
require_payloads names [] = ok tt
require_payloads names (required ∷ rest) =
    fail_if (not (contains names required)) (EvidenceError.missing_required_payload required)
    >> require_payloads names rest

unfoldable pub validate_required_payloads : List String → Checked
unfolding require_payloads
validate_required_payloads names = require_payloads names required_paths

module _ (uuids : Uuids) where
  abbrev is_uuid_v7 : List ℕ → uuids.Uuid → Bool
  is_uuid_v7 text uuid =
      bytes_eq text (uuids.hyphenated uuid)
      && uuids.get_version_num uuid == 7
      && uuids.is_rfc4122 uuid

  unfoldable pub is_run_id : String → Bool
  unfolding strip_prefix bytes_eq
  is_run_id value =
      is_some_and (strip_prefix (as_bytes "run-") (as_bytes value))
        λ text. is_some_and (uuids.parse_str text) (is_uuid_v7 text)

  unfoldable pub validate_manifest : EvidenceManifest → Checked
  validate_manifest manifest = do
    fail_if (not (str_eq manifest.format evidence_format_v1))
        (EvidenceError.unsupported_format manifest.format)
    fail_if (is_blank manifest.run_id) (EvidenceError.empty_manifest_field "runId")
    fail_if (not (is_run_id manifest.run_id)) EvidenceError.invalid_run_id
    fail_if (not (is_terminal manifest.run_status)) EvidenceError.non_terminal_run_status
    fail_if (not (manifest.attempt_count == 1)) EvidenceError.invalid_attempt_count
    fail_if (not (is_sha256_digest manifest.experiment_digest))
        EvidenceError.invalid_experiment_digest
    fail_if (not (is_sha256_digest manifest.resolved_plan_digest))
        EvidenceError.invalid_resolved_plan_digest
