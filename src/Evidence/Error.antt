-- ===== src/Evidence/Error.antt =====
-- `EvidenceError` of crates/benchplane-core/src/evidence.rs. An error that comes from the standard
-- library or from serde is its message.
use benchplane.Base.{String}

pub data EvidenceError : Type 0 where
  -- path, source
  read write : String → String → EvidenceError
  invalid_checksum_file_encoding checksum_file_too_large checksum_line_too_long : EvidenceError
  too_many_checksum_entries manifest_too_large : EvidenceError
  manifest : String → EvidenceError
  -- path, source
  invalid_record : String → String → EvidenceError
  invalid_checksum_line invalid_checksum unsafe_path duplicate_path : String → EvidenceError
  path_escape bundle_root_not_directory non_regular_file : String → EvidenceError
  non_utf8_path : String → EvidenceError
  missing_manifest_checksum : EvidenceError
  missing_payload_checksum declared_payload_missing missing_required_payload :
      String → EvidenceError
  checksum_mismatch unsupported_format empty_manifest_field : String → EvidenceError
  invalid_run_id non_terminal_run_status invalid_attempt_count : EvidenceError
  invalid_experiment_digest invalid_resolved_plan_digest already_finalized : EvidenceError
  bundle_run_id_mismatch : EvidenceError
  inconsistent_record invalid_attempt_provenance invalid_attempt_resources : String → EvidenceError
  invalid_resolved_plan invalid_original_experiment invalid_measurements : String → EvidenceError
