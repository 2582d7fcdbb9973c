-- ===== src/Evidence/Provenance/Nvidia.antt =====
-- The check of a GPU's provenance in crates/benchplane-core/src/evidence.rs against the check of the
-- metadata record in crates/benchplane-core/src/llama_cpp.rs.
use benchplane.Base.{
  ℕ, ◌≡◌, ◌≤◌, ◌↔◌, refl, String, Bool, true, false, ◌||◌, List, [], ◌∷◌, length, all, any,
  as_bytes, ok, arith, ◌==◌, eq_iff, Bool-cases, inl, inr,
}
use benchplane.Schema.Text.{
  chars, is_ascii_digit, is_control, is_whitespace, first_is_space, last_is_space,
}
use benchplane.Execution.{is_empty}
use benchplane.Provenance.{split, onto_first}
use benchplane.LlamaCpp.Metadata.{
  NvidiaMetadataRecord, bounded, is_capability, compute_capability_valid, metadata_invalid,
}
use benchplane.Evidence.Provenance.{
  require_provenance_value, nvidia_unsupported, validate_nvidia_provenance,
}

-- digits and full stops
abbrev is_version_char : ℕ → Bool
is_version_char c = is_ascii_digit c || c == 46

version_char_lem :
    (c : ℕ) → is_version_char c ≡ true → (is_control c ≡ false) × (is_whitespace c ≡ false)
unfolding is_whitespace
version_char_lem c h = ground arith

require_provenance_value_iff :
    (value field : String) → (require_provenance_value value field ≡ ok tt) ↔ (bounded value ≡ true)
unfolding require_provenance_value bounded
require_provenance_value_iff value field = ground arith

no_control : (s : List ℕ) → all is_version_char s ≡ true → any is_control s ≡ false
no_control [] h = refl
no_control (c ∷ s) h = ground (arith, version_char_lem c, no_control s)

onto_first_lem :
    (c : ℕ) (pieces : List (List ℕ))
    → all (all is_ascii_digit) (onto_first c pieces) ≡ true
    → (is_ascii_digit c ≡ true) × (all (all is_ascii_digit) pieces ≡ true)
onto_first_lem c [] h = ground arith
onto_first_lem c (piece ∷ rest) h = ground arith

-- pieces of digits between full stops
split_lem :
    (s : List ℕ) → all (all is_ascii_digit) (split 46 s) ≡ true → all is_version_char s ≡ true
unfolding split
split_lem [] h = refl
split_lem (c ∷ s) h = elim (Bool-cases (c == 46)) [
  | inl stop ↦ ground (arith, split_lem s)
  | inr other ↦
      let parts : (is_ascii_digit c ≡ true) × (all (all is_ascii_digit) (split 46 s) ≡ true) =
        onto_first_lem c (split 46 s) (ground arith) in
      ground (arith, split_lem s parts.1)
]

is_capability_lem :
    (pieces : List (List ℕ)) → is_capability pieces ≡ true → all (all is_ascii_digit) pieces ≡ true
is_capability_lem [] h = cc
is_capability_lem (a ∷ []) h = cc
is_capability_lem (a ∷ b ∷ []) h = ground arith
is_capability_lem (a ∷ b ∷ c ∷ r) h = cc

no_last_space : (s : List ℕ) → all is_version_char s ≡ true → last_is_space s ≡ false
no_last_space [] h = refl
no_last_space (c ∷ []) h = ground (arith, version_char_lem c)
no_last_space (c ∷ d ∷ s) h = ground (arith, no_last_space (d ∷ s))

no_first_space : (s : List ℕ) → all is_version_char s ≡ true → first_is_space s ≡ false
no_first_space [] h = refl
no_first_space (c ∷ s) h = ground (arith, version_char_lem c)

filled_lem : (s : List ℕ) → is_capability (split 46 s) ≡ true → is_empty s ≡ false
unfolding split
filled_lem [] h = cc
filled_lem (c ∷ s) h = refl

capability_bounded :
    (value : String)
    → compute_capability_valid value ≡ true
    → (bounded value ≡ true) ↔ (length (as_bytes value) ≤ 256)
unfolding compute_capability_valid bounded
capability_bounded value h =
    let s = chars value in
    let digits : all is_version_char s ≡ true = split_lem s (is_capability_lem (split 46 s) h) in
    let filled : is_empty s ≡ false = filled_lem s h in
    ground (arith, no_control s digits, no_first_space s digits, no_last_space s digits)

-- For a metadata record of the right format: its GPU passes the verifier's check exactly if the
-- llama.cpp adapter accepts the record and the compute capability has at most 256 bytes, a bound
-- that the adapter does not look at.
pub nvidia_metadata_iff :
    (r : NvidiaMetadataRecord)
    → r.format ≡ "benchplane-llama-cpp-nvidia/v1"
    → (validate_nvidia_provenance r.nvidia ≡ ok tt)
      ↔ ((metadata_invalid r ≡ false) × (length (as_bytes r.nvidia.compute_capability) ≤ 256))
unfolding validate_nvidia_provenance nvidia_unsupported metadata_invalid
nvidia_metadata_iff r h =
    let gpu = r.nvidia in
    ground (
      arith,
      eq_iff r.format "benchplane-llama-cpp-nvidia/v1",
      require_provenance_value_iff gpu.device_name "runtime.backend.nvidia.deviceName",
      require_provenance_value_iff gpu.nvidia_driver_version
          "runtime.backend.nvidia.nvidiaDriverVersion",
      require_provenance_value_iff gpu.cuda_driver_version
          "runtime.backend.nvidia.cudaDriverVersion",
      require_provenance_value_iff gpu.cuda_runtime_version
          "runtime.backend.nvidia.cudaRuntimeVersion",
      require_provenance_value_iff gpu.cuda_toolkit_version
          "runtime.backend.nvidia.cudaToolkitVersion",
      require_provenance_value_iff gpu.compute_capability
          "runtime.backend.nvidia.computeCapability",
      capability_bounded gpu.compute_capability,
    )
