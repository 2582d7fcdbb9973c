-- ===== src/LlamaCpp/Metadata.antt =====
-- crates/benchplane-core/src/llama_cpp.rs: the NVIDIA metadata record, and the adapter's output.
-- The JSON decoder is a parameter.
use benchplane.Base.{
  ℕ, String, Bool, false, not, ◌&&◌, ◌||◌, Option, none, some, List, [], ◌∷◌, length, leb, ◌==◌,
  str_eq, if◌then◌else◌, Result, ok, err, format, all, any, as_bytes,
}
use benchplane.Schema.Experiment.{LlamaCppTarget}
use benchplane.Schema.Text.{chars, is_ascii_digit, is_trimmed, is_control}
use benchplane.Schema.Evidence.{RunState, NvidiaGpuProvenance}
use benchplane.Execution.{ExecutionOutput, is_empty}
use benchplane.Provenance.{split, nvidia_driver_version_supported}
use benchplane.ChildSupervisor.Protocol.{ChildExecution}
use benchplane.LlamaCpp.{LlamaCppConfig, protocol_failure}

pub record NvidiaMetadataRecord : Type 0 where
  pub format : String
  pub nvidia : NvidiaGpuProvenance

unfoldable pub bounded : String → Bool
bounded value =
    let s = chars value in
    not (is_empty s) && is_trimmed s && leb (length (as_bytes value)) 256 && not (any is_control s)

-- `split_once('.')`: the first piece, and that more than one is there; a further separator stands
-- in the second part, which then is not of digits alone
abbrev pub is_capability : List (List ℕ) → Bool
is_capability (major ∷ minor ∷ []) =
    not (is_empty major)
    && not (is_empty minor)
    && all is_ascii_digit major
    && all is_ascii_digit minor
is_capability _ = false

unfoldable pub compute_capability_valid : String → Bool
compute_capability_valid value = is_capability (split 46 (chars value))

unfoldable pub metadata_invalid : NvidiaMetadataRecord → Bool
metadata_invalid r =
    let gpu = r.nvidia in
    not (str_eq r.format "benchplane-llama-cpp-nvidia/v1")
    || not (str_eq gpu.vendor "NVIDIA")
    || not (bounded gpu.device_name)
    || not (gpu.logical_device_index == 0)
    || gpu.total_vram_bytes == 0
    || not (bounded gpu.nvidia_driver_version)
    || not (nvidia_driver_version_supported gpu.nvidia_driver_version)
    || not (bounded gpu.cuda_driver_version)
    || not (bounded gpu.cuda_runtime_version)
    || not (bounded gpu.cuda_toolkit_version)
    || not (compute_capability_valid gpu.compute_capability)
    || not (str_eq gpu.offload.policy "singleDeviceAllLayers")
    || gpu.offload.total_layers == 0
    || not (gpu.offload.offloaded_layers == gpu.offload.total_layers)

module _ (decode : List ℕ → Result NvidiaMetadataRecord String) where
  unfoldable pub parse_nvidia_metadata : List ℕ → Result NvidiaGpuProvenance String
  parse_nvidia_metadata bytes = elim (decode bytes) [
    | err error ↦ err (format ("llama.cpp helper emitted malformed NVIDIA metadata: " ∷ error ∷ []))
    | ok r ↦
        if metadata_invalid r
        then err "llama.cpp helper NVIDIA metadata is inconsistent with the fixed target"
        else ok r.nvidia
  ]

  abbrev rejected : ChildExecution → String → ExecutionOutput
  rejected result message = record {
    measurements = [];
    resources = result.resources;
    nvidia_gpu = none;
    terminal_state = RunState.failed;
    failure = some (protocol_failure message);
  }

  abbrev accepted : ChildExecution → Option NvidiaGpuProvenance → ExecutionOutput
  accepted result gpu = record {
    measurements = result.measurements;
    resources = result.resources;
    nvidia_gpu = gpu;
    terminal_state = RunState.succeeded;
    failure = none;
  }

  -- the `match` on the target, of an execution without failure
  unfoldable pub with_metadata : LlamaCppTarget → List (List ℕ) → ChildExecution → ExecutionOutput
  with_metadata LlamaCppTarget.cpu [] result = accepted result none
  with_metadata LlamaCppTarget.nvidia_cuda (bytes ∷ []) result =
      elim (parse_nvidia_metadata bytes) [
        | ok gpu ↦ accepted result (some gpu)
        | err message ↦ rejected result message
      ]
  with_metadata _ _ result =
      rejected result "llama.cpp helper metadata does not match the requested target"

  unfoldable pub into_execution_output : ChildExecution → LlamaCppConfig → ExecutionOutput
  into_execution_output result config = elim result.failure [
    | none ↦ with_metadata config.target result.metadata result
    | some f ↦ record {
      measurements = result.measurements;
      resources = result.resources;
      nvidia_gpu = none;
      terminal_state = RunState.failed;
      failure = some f;
    }
  ]
