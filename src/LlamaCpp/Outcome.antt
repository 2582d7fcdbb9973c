-- ===== src/LlamaCpp/Outcome.antt =====
-- What the adapter of crates/benchplane-core/src/llama_cpp.rs makes of a supervised execution.
use benchplane.Base.{
  ℕ, ◌≡◌, refl, subst, String, Option, none, some, List, [], ◌∷◌, length, Result, Result-cases, inl,
  inr,
}
use benchplane.Schema.Experiment.{LlamaCppTarget}
use benchplane.Schema.Evidence.{FailureRecord, RunState, NvidiaGpuProvenance}
use benchplane.Execution.{ExecutionOutput}
use benchplane.ChildSupervisor.Protocol.{ChildExecution}
use benchplane.ChildSupervisor.Invariant.{ValidatedFrom}
use benchplane.ChildSupervisor.Outcome.{IsOutcome, success, failure}
use benchplane.LlamaCpp.{LlamaCppConfig, protocol_of, validate_record}
use benchplane.LlamaCpp.Metadata.{
  NvidiaMetadataRecord, into_execution_output, with_metadata, parse_nvidia_metadata,
}

-- GPU provenance is there for the NVIDIA target and for no other.
abbrev pub GpuMatches : LlamaCppTarget → Option NvidiaGpuProvenance → Type 0
GpuMatches LlamaCppTarget.cpu gpu = gpu ≡ none
GpuMatches LlamaCppTarget.nvidia_cuda gpu = (p : NvidiaGpuProvenance) × (gpu ≡ some p)

-- a success with all records and the provenance that the target needs, or a failure with none
pub data IsOutput (config : LlamaCppConfig) (expected : ℕ) (output : ExecutionOutput) : Type 0 where
  succeeded :
      output.terminal_state ≡ RunState.succeeded
      → output.failure ≡ none
      → GpuMatches config.target output.nvidia_gpu
      → length output.measurements ≡ expected
      → ValidatedFrom (λ r i. validate_record r i config) 0 output.measurements
      → IsOutput config expected output
  failed :
      (f : FailureRecord)
      → output.terminal_state ≡ RunState.failed
      → output.failure ≡ some f
      → output.nvidia_gpu ≡ none
      → output.measurements ≡ []
      → IsOutput config expected output

module _ (decode : List ℕ → Result NvidiaMetadataRecord String) (config : LlamaCppConfig)
    (expected : ℕ) where
  with_metadata-IsOutput :
      (target : LlamaCppTarget) (metadata : List (List ℕ)) (result : ChildExecution)
      → target ≡ config.target
      → length result.measurements ≡ expected
      → ValidatedFrom (λ r i. validate_record r i config) 0 result.measurements
      → IsOutput config expected (with_metadata decode target metadata result)
  unfolding with_metadata
  with_metadata-IsOutput LlamaCppTarget.cpu [] result same complete checked =
      succeeded refl refl (subst (λ t. GpuMatches t none) same refl) complete checked
  with_metadata-IsOutput LlamaCppTarget.cpu (m ∷ ms) result same complete checked =
      failed _ refl refl refl refl
  with_metadata-IsOutput LlamaCppTarget.nvidia_cuda [] result same complete checked =
      failed _ refl refl refl refl
  with_metadata-IsOutput LlamaCppTarget.nvidia_cuda (m ∷ []) result same complete checked =
      elim (Result-cases (parse_nvidia_metadata decode m)) [
        | inl (gpu, parsed) ↦
            rw (parsed, with_metadata)
              (succeeded refl refl (subst (λ t. GpuMatches t (some gpu)) same (gpu, refl)) complete
                checked)
        | inr (message, malformed) ↦ rw (malformed, with_metadata) (failed _ refl refl refl refl)
      ]
  with_metadata-IsOutput LlamaCppTarget.nvidia_cuda (m ∷ n ∷ ms) result same complete checked =
      failed _ refl refl refl refl

  -- Of an outcome of the supervisor under the adapter's protocol the adapter makes: a succeeded
  -- output with all the expected records, each checked at its position, and with GPU provenance
  -- just if the target is NVIDIA; or a failed one, with a failure, no record and no provenance.
  pub into_execution_output-IsOutput :
      (result : ChildExecution)
      → IsOutcome (λ r i. validate_record r i config) (protocol_of config expected) result
      → IsOutput config expected (into_execution_output decode result config)
  unfolding into_execution_output protocol_of
  into_execution_output-IsOutput result (success resources fine _ _ complete checked) =
      simp (fine, into_execution_output)
        (with_metadata-IsOutput config.target result.metadata result refl complete checked)
  into_execution_output-IsOutput result (failure f broken _ empty) =
      simp (broken, into_execution_output) (failed f refl refl refl empty)
