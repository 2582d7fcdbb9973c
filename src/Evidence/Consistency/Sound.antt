-- ===== src/Evidence/Consistency/Sound.antt =====
-- What `validate_record_consistency` of crates/benchplane-core/src/evidence.rs guarantees of a bundle
-- that it accepts.
use benchplane.Evidence.Outcome.{Outcome-cases, fails, gives, panics}
use benchplane.Base.{
  ℕ, ◌+◌, ◌≡◌, sym, subst, ap, ◌∙◌, String, Option, none, some, List, length, Result, ok, arith,
  Option-cases, Result-cases, inl, inr,
}
use benchplane.Schema.Experiment.{Experiment, ResolvedExperiment}
use benchplane.Schema.Measurement.{EvidenceManifest}
use benchplane.Resolution.{ResolvedPlanContent}
use benchplane.Evidence.Error.{EvidenceError}
use benchplane.Evidence.Records.{expected_measurement_counts}
use benchplane.Evidence.Measurements.{
  MeasurementValidation, validate_measurements, measurements_path,
}
use benchplane.Evidence.Measurements.Sequence.{ValidFrom, generator_after}
use benchplane.Evidence.Measurements.Rejects.{validate_measurements_sound}
use benchplane.Evidence.Reports.{expected_validity}
use benchplane.Evidence.Entries.{get}
use benchplane.Evidence.Consistency.{
  Decoders, VerifiedEvidenceBundle, check_plan, validate_record_consistency,
}
use benchplane.Evidence.Consistency.Attempt.{Decoded, IsAttemptProvenance, IsAttemptResources}
use benchplane.Evidence.Consistency.Steps.{named_lem, check_plan_lem, IsPlanOf, AreRecords}
use benchplane.Evidence.Consistency.Files.{check_records_lem, provenance_path, resources_path}

module _ (decode : Decoders) (encode : Experiment → Result (List ℕ) String)
    (encode_content : ResolvedPlanContent → Result (List ℕ) String) (sha256 : List ℕ → String) where
  -- `content` are the bytes of the measurements file, `records` those of the files with a record, and
  -- `digests` the digests of the inventory
  pub record IsVerified (file_name : Option String) (content : Result (List ℕ) EvidenceError)
      (digests : List (String × String)) (manifest : EvidenceManifest)
      (records : List (String × List ℕ)) (b : VerifiedEvidenceBundle) : Type 0 where
    pub named : file_name ≡ some manifest.run_id
    pub same_manifest : b.manifest ≡ manifest
    pub plan : IsPlanOf decode encode encode_content sha256 manifest records b.plan
    pub warmups : ℕ
    pub validated : MeasurementValidation
    pub read :
        (bytes : List ℕ) × (digest : String) × (content ≡ ok bytes)
        × (get digests measurements_path ≡ some digest)
        × (sha256 bytes ≡ digest)
    pub same_measurements : b.measurements ≡ validated.records
    pub counts :
        expected_measurement_counts b.plan manifest.run_status
        ≡ ok (warmups, validated.measured_records)
    pub complete : length b.measurements ≡ warmups + validated.measured_records
    pub valid : ValidFrom b.plan warmups 0 none b.measurements
    pub validity :
        expected_validity manifest.run_status validated.measured_records
          b.plan.experiment.spec.measurement.repetitions
        ≡ some manifest.validity_status
    pub provenance :
        Decoded decode.provenance
          (IsAttemptProvenance manifest (generator_after none b.measurements))
          (get records provenance_path)
          b.provenance
    pub resources :
        Decoded decode.resources
          (IsAttemptResources manifest b.plan)
          (get records resources_path)
          b.resources
    pub others : AreRecords decode encode encode_content sha256 manifest b.plan validated records

  -- Whatever the decoders, the encoders and the digest do: of a bundle that is accepted, the
  -- directory is named after the run; the plan is that of resolved-plan.json, its experiment is one
  -- that `validate` accepts, both its digests are the manifest's, and experiment.yaml decodes to an
  -- experiment that resolves to an equal plan; the measurements file has the digest of the
  -- inventory; the measurements are as many as the plan and the
  -- terminal status ask for and each is valid at its place; the validity status is the one that
  -- follows from their number; run.json and attempt.json have the identity, the digests and the
  -- status of the manifest; validity.json and summary.json the manifest's statuses, the number of
  -- the measurements and the statistics computed from them; every line of events.jsonl is an
  -- event of this run's attempt; the provenance, if its file is there, is of this run and of the
  -- generator of the measurements; and the resources, if their file is there, are of this run, of a
  -- runtime with a helper, and of whole KiB.
  pub validate_record_consistency_sound :
      (root : String) (file_name : Option String) (content : Result (List ℕ) EvidenceError)
      (manifest : EvidenceManifest) (records : List (String × List ℕ))
      (digests : List (String × String)) (b : VerifiedEvidenceBundle)
      → validate_record_consistency decode encode encode_content sha256 root file_name content
          manifest records digests
        ≡ some (ok b)
      → IsVerified file_name content digests manifest records b
  unfolding validate_record_consistency
  validate_record_consistency_sound root file_name content manifest records digests b h =
      elim (Outcome-cases (check_plan decode encode encode_content sha256 manifest records)) [
        | panics p ↦ absurd (ground arith)
        | fails e p ↦ absurd (ground arith)
        | gives plan planned ↦ elim (Option-cases (get digests measurements_path)) [
          | inl missing ↦ absurd (ground arith)
          | inr (digest, listed) ↦ elim (Result-cases content) [
            | inr (e, unread) ↦ absurd (ground arith)
            | inl (bytes, read) ↦
                elim (Result-cases (
                  validate_measurements decode.measurement sha256 bytes digest plan
                    manifest.run_status)) [
                      | inr (e, invalid) ↦ absurd (ground arith)
                      | inl (m, measured) ↦
                          let facts =
                            check_records_lem decode encode encode_content sha256 root manifest
                              records plan m b (ground arith) in
                          let (warmups, counts, same_digest, complete, valid, generator) =
                            validate_measurements_sound decode.measurement sha256 plan
                              manifest.run_status bytes digest m measured in
                          let whole =
                            check_plan_lem decode encode encode_content sha256 manifest records plan
                              planned in
                          let q = sym facts.same_plan in
                          let rs = sym facts.same_records in
                          record {
                            named = named_lem file_name manifest.run_id (ground arith);
                            same_manifest = facts.same_manifest;
                            plan =
                                subst
                                  (IsPlanOf decode encode encode_content sha256 manifest records) q
                                  whole;
                            warmups = warmups;
                            validated = m;
                            read = (bytes, digest, read, listed, same_digest);
                            same_measurements = facts.same_records;
                            counts =
                                subst
                                  (λ p.
                                    expected_measurement_counts p manifest.run_status
                                    ≡ ok (warmups, m.measured_records))
                                  q counts;
                            complete = ap length facts.same_records ∙ complete;
                            valid =
                                subst (λ p. ValidFrom p warmups 0 none b.measurements) q
                                  (subst (λ l. ValidFrom plan warmups 0 none l) rs valid);
                            validity =
                                subst
                                  (λ (p : ResolvedExperiment).
                                    expected_validity manifest.run_status m.measured_records
                                      p.experiment.spec.measurement.repetitions
                                    ≡ some manifest.validity_status)
                                  q facts.validity;
                            provenance =
                                subst
                                  (λ g.
                                    Decoded decode.provenance (IsAttemptProvenance manifest g)
                                      (get records provenance_path) b.provenance)
                                  (generator ∙ ap (generator_after none) rs) facts.provenance;
                            resources =
                                subst
                                  (λ p.
                                    Decoded decode.resources (IsAttemptResources manifest p)
                                      (get records resources_path) b.resources)
                                  q facts.resources;
                            others =
                                subst
                                  (λ p.
                                    AreRecords decode encode encode_content sha256 manifest p m
                                      records)
                                  q facts.others;
                          }
                    ]
          ]
        ]
      ]
