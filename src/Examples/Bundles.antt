-- ===== src/Examples/Bundles.antt =====
-- The verification of a bundle of a local-fake run.
use benchplane.Base.{
  ok_or, ℕ, ◌≢◌, String, true, none, some, List, [], ◌∷◌, map, concat, Result, ok, err, as_bytes,
  Bool, not, select, str_eq,
}
use Prim.Native.String.{◌++◌}
use benchplane.Schema.Experiment.{local_fake_generator_version}
use benchplane.Schema.Evidence.{RunState, AttemptStatus, RunRecord, AttemptRecord, LifecycleEvent}
use benchplane.Schema.Measurement.{EvidenceManifest}
use benchplane.Execution.{ExecutionOutput, summarize}
use benchplane.Evidence.Error.{EvidenceError}
use benchplane.Evidence.Manifest.{Uuids, required_paths}
use benchplane.Evidence.Measurements.Sequence.{written}
use benchplane.Evidence.Files.{FileSystem}
use benchplane.Evidence.Inventory.{Inventory, verify_inventory}
use benchplane.Evidence.Consistency.{Decoders, VerifiedEvidenceBundle}
use benchplane.Evidence.Bundle.{BundleFiles, verify_evidence_bundle_data}
use benchplane.Evidence.Bundle.Verified.{verify_evidence_bundle_total}
use benchplane.Evidence.Inventory.{verify_inventory}
use benchplane.Base.Bytes.{as_bytes}
use benchplane.Evidence.Bundle.{verify_evidence_bundle_data}
use benchplane.Evidence.Lines.{lines}
use benchplane.Execution.{summarize}
use benchplane.Examples.Plans.{fake_experiment, samples, encode, decode}
use benchplane.Examples.Runs.{provenance_of, verdict_of}
use benchplane.Examples.Checks.{digits, experiment_bytes, content_bytes, digest, plan, manifest_for}

abbrev run_id : String
run_id = "run-01900000-0000-7000-8000-000000000000"

-- every text is the hyphenated form of one identifier of version 7
abbrev uuids : Uuids
uuids = record {
  Uuid = Unit;
  parse_str = λ text. some tt;
  hyphenated = λ id. as_bytes "01900000-0000-7000-8000-000000000000";
  get_version_num = λ id. 7;
  is_rfc4122 = λ id. true;
}

abbrev run : RunRecord
run = record {
  run_id = run_id;
  run_status = RunState.succeeded;
  created_at = "2026-01-01T00:00:00Z";
  updated_at = "2026-01-01T00:00:01Z";
  completed_at = some "2026-01-01T00:00:01Z";
  experiment_digest = digest;
  resolved_plan_digest = digest;
  attempt_count = 1;
  failure = none;
}

abbrev attempt : AttemptRecord
attempt = record {
  run_id = run_id;
  attempt_number = 1;
  status = AttemptStatus.succeeded;
  started_at = "2026-01-01T00:00:00Z";
  updated_at = "2026-01-01T00:00:01Z";
  completed_at = some "2026-01-01T00:00:01Z";
  failure = none;
}

abbrev event : LifecycleEvent
event = record {
  run_id = run_id;
  sequence = 1;
  recorded_at = "2026-01-01T00:00:00Z";
  from_state = none;
  to_state = RunState.created;
  attempt_number = 1;
  failure = none;
}

abbrev output : ExecutionOutput
output = record {
  measurements = samples local_fake_generator_version [];
  resources = none;
  nvidia_gpu = none;
  terminal_state = RunState.succeeded;
  failure = none;
}

-- each record decodes to one value, the measurements line by line
abbrev decoders : Decoders
decoders = record {
  experiment = λ bytes. ok fake_experiment;
  plan = λ bytes. ok plan;
  measurement = decode local_fake_generator_version;
  run = λ bytes. ok run;
  attempt = λ bytes. ok attempt;
  provenance = λ bytes. ok (provenance_of run_id);
  resources = λ bytes. err "no resources";
  validity = λ bytes. ok (verdict_of run_id);
  summary = λ bytes. ok_or (summarize plan output (verdict_of run_id) run_id) "no summary";
  event = λ bytes. ok event;
}

-- regular files of one byte, each at its own name
abbrev files : FileSystem
files = record {
  is_file = λ path. ok true;
  canonicalize = λ path. ok path;
  starts_with_root = λ path. true;
  size = λ path. ok 1;
  open_file = λ path. ok (ok (123 ∷ []) ∷ ok [] ∷ []);
}

abbrev payloads : List String
payloads = "attempts/0001/provenance.json" ∷ required_paths

abbrev line : String → Result (ℕ × String) EvidenceError
line name = ok (102, digits [] ++ "  " ++ name ++ "\n")

abbrev bundle : BundleFiles
bundle = record {
  root = "runs";
  file_name = some run_id;
  payloads = ok payloads;
  sums_size = 1020;
  lines = map line payloads;
  measurements = ok (concat (written encode output.measurements));
  files = files;
}

abbrev manifest_decoder : List ℕ → Result EvidenceManifest String
manifest_decoder bytes = ok (manifest_for run_id)

verify_evidence_bundle_total_example :
    verify_evidence_bundle_data uuids manifest_decoder decoders experiment_bytes content_bytes
      digits bundle
    ≢ none
verify_evidence_bundle_total_example =
    verify_evidence_bundle_total uuids manifest_decoder decoders experiment_bytes content_bytes
      digits bundle

abbrev onto : List String → List String → List String
onto [] names = names
onto (name ∷ rest) names = onto rest (name ∷ names)

abbrev listed : List String
listed = onto payloads []

-- all but the measurements are kept
abbrev kept : String → Bool
kept name = not (str_eq name "attempts/0001/measurements.jsonl")

abbrev inventory : Inventory
inventory = record {
  names = listed;
  targets = listed;
  digests = map (λ name. (name, digits [])) listed;
  records = map (λ name. (name, 123 ∷ [])) (select kept listed);
  total_bytes = 1020;
}

abbrev verified : VerifiedEvidenceBundle
verified = record {
  root = "runs";
  manifest = manifest_for run_id;
  plan = plan;
  provenance = some (provenance_of run_id);
  resources = none;
  measurements = output.measurements;
}
