-- ===== src/Evidence/Bundle/Verified.antt =====
-- What `verify_evidence_bundle_data` of crates/benchplane-core/src/evidence.rs guarantees of a bundle
-- that it accepts, and that it never panics.
use benchplane.Base.{
  ℕ, ◌≡◌, ◌≢◌, String, true, none, List, All, Result, ok, arith, eq_iff, Result-cases, inl, inr,
}
use benchplane.Schema.Experiment.{Experiment, evidence_format_v1}
use benchplane.Schema.Evidence.{is_terminal}
use benchplane.Schema.Measurement.{EvidenceManifest}
use benchplane.Resolution.{ResolvedPlanContent}
use benchplane.Evidence.Outcome.{gives, fails, panics, Outcome-cases}
use benchplane.Evidence.Manifest.{
  Uuids, contains, required_paths, is_run_id, is_sha256_digest, validate_manifest,
  validate_required_payloads,
}
use benchplane.Evidence.Inventory.{Inventory, verify_inventory}
use benchplane.Evidence.Inventory.Sound.{IsInventory, verify_inventory_total}
use benchplane.Evidence.Consistency.{Decoders, VerifiedEvidenceBundle}
use benchplane.Evidence.Consistency.Sound.{IsVerified}
use benchplane.Evidence.Consistency.Total.{validate_record_consistency_total}
use benchplane.Evidence.Bundle.{BundleFiles, verify_evidence_bundle_data}

-- a manifest that describes one terminal attempt
pub record IsManifest (uuids : Uuids) (m : EvidenceManifest) : Type 0 where
  pub format : m.format ≡ evidence_format_v1
  pub run_id : is_run_id uuids m.run_id ≡ true
  pub terminal : is_terminal m.run_status ≡ true
  pub attempts : m.attempt_count ≡ 1
  pub experiment : is_sha256_digest m.experiment_digest ≡ true
  pub plan : is_sha256_digest m.resolved_plan_digest ≡ true

validate_manifest-IsManifest :
    (uuids : Uuids) (m : EvidenceManifest) → validate_manifest uuids m ≡ ok tt → IsManifest uuids m
unfolding validate_manifest
validate_manifest-IsManifest uuids m h = record {
  format = ground (arith, eq_iff m.format evidence_format_v1);
  run_id = ground arith;
  terminal = ground arith;
  attempts = ground arith;
  experiment = ground arith;
  plan = ground arith;
}

module _ (uuids : Uuids) (decode_manifest : List ℕ → Result EvidenceManifest String)
    (decode : Decoders) (encode : Experiment → Result (List ℕ) String)
    (encode_content : ResolvedPlanContent → Result (List ℕ) String) (sha256 : List ℕ → String) where
  -- Whatever the operating system, the decoders, the encoders and the digest do: the verification of a
  -- bundle never panics. It reaches neither its `unreachable!`s, on a path's components and on the
  -- manifest's status, nor its `expect` on the limit of retained bytes, and no percentile that it
  -- looks up is out of range.
  pub verify_evidence_bundle_total :
      (b : BundleFiles)
      → verify_evidence_bundle_data uuids decode_manifest decode encode encode_content sha256 b
        ≢ none
  unfolding verify_evidence_bundle_data
  verify_evidence_bundle_total b panicked = elim (Result-cases b.payloads) [
    | inr (e, unread) ↦ ground arith
    | inl (payloads, gathered) ↦
        elim (Outcome-cases (verify_inventory b.files sha256 payloads b.sums_size b.lines)) [
          | panics q ↦ verify_inventory_total b.files sha256 payloads b.sums_size b.lines q
          | fails e refused ↦ ground arith
          | gives (inventory, bytes) listed ↦ elim (Result-cases (decode_manifest bytes)) [
            | inr (e, malformed) ↦ ground arith
            | inl (m, decoded) ↦ elim (Result-cases (validate_manifest uuids m)) [
              | inr (e, invalid) ↦ ground arith
              | inl (u, valid) ↦ elim (Result-cases (validate_required_payloads inventory.names)) [
                | inr (e, missing) ↦ ground arith
                | inl (w, complete) ↦
                    validate_record_consistency_total decode encode encode_content sha256 b.root
                      b.file_name b.measurements m inventory.records inventory.digests
                      (validate_manifest-IsManifest uuids m (ground arith)).terminal (ground arith)
              ]
            ]
          ]
        ]
  ]

  -- what a verified bundle is: its files and its records
  pub record IsVerifiedBundle (b : BundleFiles) (v : VerifiedEvidenceBundle) : Type 0 where
    pub payloads : List String
    pub gathered : b.payloads ≡ ok payloads
    pub inventory : Inventory
    pub checked : IsInventory b.files sha256 payloads inventory
    pub listed : All (λ n. contains inventory.names n ≡ true) payloads
    pub required : All (λ n. contains inventory.names n ≡ true) required_paths
    pub manifest : IsManifest uuids v.manifest
    pub records :
        IsVerified decode encode encode_content sha256 b.file_name b.measurements inventory.digests
          v.manifest inventory.records v
