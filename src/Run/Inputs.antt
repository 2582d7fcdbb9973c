-- ===== src/Run/Inputs.antt =====
-- What a run of crates/benchplane-core/src/run.rs relies on where it would panic: the execution has been
-- chosen for the plan, and its output is terminal.
use benchplane.Base.{
  ◌≡◌, refl, ap, String, Bool, true, false, Option, none, some, ok, arith, Result-cases,
  Option-cases, inl, inr,
}
use benchplane.Schema.Experiment.{
  ResolvedExperiment, ExperimentSpec, ProviderSpec, RuntimeSpec, LlamaCppTarget,
}
use benchplane.Schema.Evidence.{
  AttemptProvenance, RuntimeProvenance, NvidiaGpuProvenance, is_terminal,
}
use benchplane.Schema.Measurement.{ValidityResult, RunSummary}
use benchplane.Execution.{
  ExecutionOutput, validity_of, observed_samples, evaluate_validity, measured_records, summary_of,
  summarize,
}
use benchplane.Provenance.Capture.{Environment, runtime_provenance, capture, attach_nvidia}
use benchplane.Evidence.Reports.Consistent.{validity_of-terminal, statistics_total}
use benchplane.Run.{ExecutionKind, kind_of, execution_kind}
use benchplane.Run.Stages.{IsAttached}

-- A GPU is reported by an execution on the NVIDIA target only.
unfoldable pub gpu_fits : RuntimeSpec → Option NvidiaGpuProvenance → Bool
gpu_fits runtime none = true
gpu_fits (RuntimeSpec.llama_cpp LlamaCppTarget.nvidia_cuda model tokens) (some nvidia) = true
gpu_fits runtime (some nvidia) = false

runtime_total :
    (cuda : Bool) (env : Environment) (provider : ProviderSpec) (runtime : RuntimeSpec)
    (s : ExperimentSpec) (kind : ExecutionKind)
    → kind_of cuda provider runtime s ≡ ok kind
    → (r : RuntimeProvenance) × (runtime_provenance env runtime ≡ some r)
unfolding runtime_provenance
runtime_total cuda env provider (RuntimeSpec.local_fake seed scenario) s kind h = (_, refl)
runtime_total cuda env provider (RuntimeSpec.cpu_probe tokens units) s kind h = (_, refl)
runtime_total cuda env provider (RuntimeSpec.llama_cpp target model tokens) s kind h = (_, refl)
runtime_total cuda env ProviderSpec.local_fake (RuntimeSpec.vllm m r a) s kind h = cc
runtime_total cuda env ProviderSpec.local (RuntimeSpec.vllm m r a) s kind h = cc
runtime_total cuda env (ProviderSpec.aws region capacity instances) (RuntimeSpec.vllm m r a) s kind
      h =
    cc

-- Where an execution has been chosen, a provenance is captured.
pub capture_total :
    (cuda : Bool) (env : Environment) (run_id : String) (plan : ResolvedExperiment)
    (kind : ExecutionKind)
    → execution_kind cuda plan ≡ ok kind
    → (p : AttemptProvenance) × (capture env run_id plan ≡ some p)
unfolding execution_kind capture
capture_total cuda env run_id plan kind h =
    let (r, found) =
      runtime_total cuda env plan.experiment.spec.provider plan.experiment.spec.runtime
        plan.experiment.spec kind h in
    elim (Option-cases (capture env run_id plan)) [
      | inl missing ↦ absurd (ground arith)
      | inr (p, captured) ↦ (p, captured)
    ]

attach_lem :
    (env : Environment) (run_id : String) (plan : ResolvedExperiment) (runtime : RuntimeSpec)
    (nvidia : NvidiaGpuProvenance) (p : AttemptProvenance)
    → plan.experiment.spec.runtime ≡ runtime
    → gpu_fits runtime (some nvidia) ≡ true
    → capture env run_id plan ≡ some p
    → (q : AttemptProvenance) × (attach_nvidia p nvidia ≡ ok q)
unfolding gpu_fits capture attach_nvidia runtime_provenance
attach_lem env run_id plan (RuntimeSpec.llama_cpp LlamaCppTarget.nvidia_cuda model tokens) nvidia p
      same fits captured =
    let runtime = ap (runtime_provenance env) same in
    elim (Result-cases (attach_nvidia p nvidia)) [
      | inl (q, attached) ↦ (q, attached)
      | inr (message, refused) ↦ absurd (ground arith)
    ]
attach_lem env run_id plan (RuntimeSpec.llama_cpp LlamaCppTarget.cpu model tokens) nvidia p same
      fits captured =
    absurd (ground arith)
attach_lem env run_id plan (RuntimeSpec.local_fake a b) nvidia p same fits captured =
    absurd (ground arith)
attach_lem env run_id plan (RuntimeSpec.cpu_probe a b) nvidia p same fits captured =
    absurd (ground arith)
attach_lem env run_id plan (RuntimeSpec.vllm m r a) nvidia p same fits captured =
    absurd (ground arith)

-- A GPU that fits the runtime attaches to the provenance captured for it.
pub attach_total :
    (env : Environment) (run_id : String) (plan : ResolvedExperiment)
    (gpu : Option NvidiaGpuProvenance) (p : AttemptProvenance)
    → gpu_fits plan.experiment.spec.runtime gpu ≡ true
    → capture env run_id plan ≡ some p
    → (q : AttemptProvenance) × IsAttached p gpu q
attach_total env run_id plan none p fits captured = (p, refl)
attach_total env run_id plan (some nvidia) p fits captured =
    attach_lem env run_id plan plan.experiment.spec.runtime nvidia p refl fits captured

-- A terminal output has a validity.
pub evaluate_total :
    (plan : ResolvedExperiment) (output : ExecutionOutput) (run_id : String)
    → is_terminal output.terminal_state ≡ true
    → (v : ValidityResult) × (evaluate_validity plan output run_id ≡ some v)
unfolding evaluate_validity
evaluate_total plan output run_id terminal =
    let required = plan.experiment.spec.measurement.repetitions in
    let observed = observed_samples output.measurements in
    elim (Option-cases (validity_of output.terminal_state required observed)) [
      | inl panics ↦
          absurd (validity_of-terminal output.terminal_state required observed terminal panics)
      | inr (w, judged) ↦ elim (Option-cases (evaluate_validity plan output run_id)) [
        | inl missing ↦ absurd (ground arith)
        | inr (v, evaluated) ↦ (v, evaluated)
      ]
    ]

-- Every output has a summary.
pub summarize_total :
    (plan : ResolvedExperiment) (output : ExecutionOutput) (v : ValidityResult) (run_id : String)
    → (z : RunSummary) × (summarize plan output v run_id ≡ some z)
unfolding summarize
summarize_total plan output v run_id =
    let (found, computed) = statistics_total (measured_records output.measurements) v.status in
    (summary_of plan output v run_id found, ground arith)
