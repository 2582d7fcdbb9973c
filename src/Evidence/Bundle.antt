-- ===== src/Evidence/Bundle.antt =====
-- `verify_evidence_bundle_data` of crates/benchplane-core/src/evidence.rs, from its parts. A panic is
-- `none`.
pub mod Verified
use benchplane.Evidence.Outcome.{Outcome, ◌>>=◌, ◌>>◌}
use benchplane.Base.{ℕ, ◌≡◌, String, Option, some, List, Result, ok, err}
use benchplane.Schema.Experiment.{Experiment}
use benchplane.Schema.Measurement.{EvidenceManifest}
use benchplane.Resolution.{ResolvedPlanContent}
use benchplane.Evidence.Error.{EvidenceError}
use benchplane.Evidence.Manifest.{Uuids, validate_manifest, validate_required_payloads}
use benchplane.Evidence.Files.{FileSystem}
use benchplane.Evidence.Inventory.{verify_inventory}
use benchplane.Evidence.Consistency.{Decoders, VerifiedEvidenceBundle, validate_record_consistency}

-- What the operating system has given of a bundle: its root, the names that the walk through its
-- directories has gathered, SHA256SUMS with its size and its lines, and the measurements file.
pub record BundleFiles : Type 0 where
  pub root : String
  pub file_name : Option String
  pub payloads : Result (List String) EvidenceError
  pub sums_size : ℕ
  pub lines : List (Result (ℕ × String) EvidenceError)
  pub measurements : Result (List ℕ) EvidenceError
  pub files : FileSystem

-- `map_err(EvidenceError::Manifest)`
abbrev manifest_from : Result EvidenceManifest String → Result EvidenceManifest EvidenceError
manifest_from (ok manifest) = ok manifest
manifest_from (err e) = err (EvidenceError.manifest e)

module _ (uuids : Uuids) (decode_manifest : List ℕ → Result EvidenceManifest String)
    (decode : Decoders) (encode : Experiment → Result (List ℕ) String)
    (encode_content : ResolvedPlanContent → Result (List ℕ) String) (sha256 : List ℕ → String) where
  unfoldable pub verify_evidence_bundle_data : BundleFiles → Outcome VerifiedEvidenceBundle
  verify_evidence_bundle_data b = do
    payloads ← some b.payloads
    (inventory, manifest_bytes) ← verify_inventory b.files sha256 payloads b.sums_size b.lines
    manifest ← some (manifest_from (decode_manifest manifest_bytes))
    some (validate_manifest uuids manifest)
    some (validate_required_payloads inventory.names)
    validate_record_consistency decode encode encode_content sha256 b.root b.file_name
        b.measurements manifest inventory.records inventory.digests
