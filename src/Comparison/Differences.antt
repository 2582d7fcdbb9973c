-- ===== src/Comparison/Differences.antt =====
-- `contract_differences` of crates/benchplane-core/src/comparison.rs against equality.
use benchplane.Base.{◌≡◌, ◌↔◌, refl, true, [], arith, eq_iff, subst}
use benchplane.Schema.Experiment.{LlamaCppTarget}
use benchplane.Schema.Equality.{target_eq}
use benchplane.Schema.Evidence.{DeviceClass}
use benchplane.Schema.Measurement.{LlamaMeasurementContract}
use benchplane.Evidence.Provenance.{device_eq}
use benchplane.Comparison.Contract.{contract_differences}

target_eq_iff : (a b : LlamaCppTarget) → (target_eq a b ≡ true) ↔ (a ≡ b)
unfolding target_eq
target_eq_iff LlamaCppTarget.cpu LlamaCppTarget.cpu = ground arith
target_eq_iff LlamaCppTarget.nvidia_cuda LlamaCppTarget.nvidia_cuda = ground arith
target_eq_iff LlamaCppTarget.cpu LlamaCppTarget.nvidia_cuda = ground arith
target_eq_iff LlamaCppTarget.nvidia_cuda LlamaCppTarget.cpu = ground arith

device_eq_iff : (a b : DeviceClass) → (device_eq a b ≡ true) ↔ (a ≡ b)
unfolding device_eq
device_eq_iff DeviceClass.cpu DeviceClass.cpu = ground arith
device_eq_iff DeviceClass.nvidia_cuda DeviceClass.nvidia_cuda = ground arith
device_eq_iff DeviceClass.cpu DeviceClass.nvidia_cuda = ground arith
device_eq_iff DeviceClass.nvidia_cuda DeviceClass.cpu = ground arith

-- the fields agree
abbrev Agrees : LlamaMeasurementContract → LlamaMeasurementContract → Type 0
Agrees a b =
    (a.provider ≡ b.provider)
    × (a.runtime ≡ b.runtime)
    × (a.target ≡ b.target)
    × (a.generator ≡ b.generator)
    × (a.model ≡ b.model)
    × (a.model_sha256 ≡ b.model_sha256)
    × (a.engine_name ≡ b.engine_name)
    × (a.engine_version ≡ b.engine_version)
    × (a.backend ≡ b.backend)
    × (a.device_class ≡ b.device_class)
    × (a.workload_profile ≡ b.workload_profile)
    × (a.output_tokens ≡ b.output_tokens)
    × (a.requests_per_repetition ≡ b.requests_per_repetition)
    × (a.concurrency ≡ b.concurrency)
    × (a.warmup_runs ≡ b.warmup_runs)
    × (a.measured_repetitions ≡ b.measured_repetitions)

agree_eq : (a b : LlamaMeasurementContract) → Agrees a b → a ≡ b
agree_eq a b (q0, q1, q2, q3, q4, q5, q6, q7, q8, q9, q10, q11, q12, q13, q14, q15) = λ i. record {
  provider = q0 i;
  runtime = q1 i;
  target = q2 i;
  generator = q3 i;
  model = q4 i;
  model_sha256 = q5 i;
  engine_name = q6 i;
  engine_version = q7 i;
  backend = q8 i;
  device_class = q9 i;
  workload_profile = q10 i;
  output_tokens = q11 i;
  requests_per_repetition = q12 i;
  concurrency = q13 i;
  warmup_runs = q14 i;
  measured_repetitions = q15 i;
}

differences_lem : (a b : LlamaMeasurementContract) → (contract_differences a b ≡ []) ↔ Agrees a b
unfolding contract_differences
differences_lem a b = ground (
  arith,
  eq_iff a.provider b.provider,
  eq_iff a.runtime b.runtime,
  target_eq_iff a.target b.target,
  eq_iff a.generator b.generator,
  eq_iff a.model b.model,
  eq_iff a.model_sha256 b.model_sha256,
  eq_iff a.engine_name b.engine_name,
  eq_iff a.engine_version b.engine_version,
  eq_iff a.backend b.backend,
  device_eq_iff a.device_class b.device_class,
  eq_iff a.workload_profile b.workload_profile,
)

-- Two contracts have no differences exactly if they are equal: each field is compared.
pub contract_differences_iff :
    (a b : LlamaMeasurementContract) → (contract_differences a b ≡ []) ↔ (a ≡ b)
unfolding contract_differences
contract_differences_iff a b = (
  λ h. agree_eq a b ((differences_lem a b).0 h),
  λ same. (differences_lem a b).1 (
      subst (Agrees a) same (
        refl, refl, refl, refl, refl, refl, refl, refl, refl, refl, refl, refl, refl, refl, refl,
        refl,
      )),
)
