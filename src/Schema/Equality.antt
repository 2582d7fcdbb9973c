-- ===== src/Schema/Equality.antt =====
-- The derived `PartialEq` of an experiment and of a resolved plan, of
-- crates/benchplane-schema/src/experiment.rs.
use benchplane.Base.{
  ◌≡◌, refl, ℤ, pos, negsuc, String, Bool, true, false, not, ◌&&◌, ◌||◌, List, [], ◌∷◌, ◌==◌,
  str_eq, eq_iff, arith,
}
use benchplane.Schema.Float64.{Float64, nan, infinite, finite, is_finite}
use benchplane.Schema.Experiment.{
  AwsCapacity, ProviderSpec, LlamaCppTarget, LocalFakeScenario, RuntimeSpec, ExperimentSpec,
  Experiment, ResolvedExperiment,
}

abbrev pub bool_eq : Bool → Bool → Bool
bool_eq true b = b
bool_eq false b = not b

abbrev pub int_eq : ℤ → ℤ → Bool
int_eq (pos a) (pos b) = a == b
int_eq (negsuc a) (negsuc b) = a == b
int_eq _ _ = false

-- `==` of `f64`: a value other than the zeros has one normalised significand and exponent.
unfoldable pub float_eq : Float64 → Float64 → Bool
float_eq (infinite a) (infinite b) = bool_eq a b
float_eq (finite a m e) (finite b n f) = (m == 0 && n == 0) || (bool_eq a b && m == n && int_eq e f)
float_eq _ _ = false

unfoldable pub texts_eq : List String → List String → Bool
texts_eq [] [] = true
texts_eq (a ∷ s) (b ∷ t) = str_eq a b && texts_eq s t
texts_eq _ _ = false

unfoldable pub labels_eq : List (String × String) → List (String × String) → Bool
labels_eq [] [] = true
labels_eq ((k, v) ∷ s) ((l, w) ∷ t) = str_eq k l && str_eq v w && labels_eq s t
labels_eq _ _ = false

unfoldable pub capacity_eq : AwsCapacity → AwsCapacity → Bool
capacity_eq AwsCapacity.spot AwsCapacity.spot = true
capacity_eq AwsCapacity.on_demand AwsCapacity.on_demand = true
capacity_eq _ _ = false

unfoldable pub provider_eq : ProviderSpec → ProviderSpec → Bool
unfolding texts_eq capacity_eq
provider_eq ProviderSpec.local_fake ProviderSpec.local_fake = true
provider_eq ProviderSpec.local ProviderSpec.local = true
provider_eq (ProviderSpec.aws r c i) (ProviderSpec.aws r' c' i') =
    str_eq r r' && capacity_eq c c' && texts_eq i i'
provider_eq _ _ = false

unfoldable pub target_eq : LlamaCppTarget → LlamaCppTarget → Bool
target_eq LlamaCppTarget.cpu LlamaCppTarget.cpu = true
target_eq LlamaCppTarget.nvidia_cuda LlamaCppTarget.nvidia_cuda = true
target_eq _ _ = false

unfoldable pub scenario_eq : LocalFakeScenario → LocalFakeScenario → Bool
scenario_eq LocalFakeScenario.success LocalFakeScenario.success = true
scenario_eq LocalFakeScenario.runtime_failure LocalFakeScenario.runtime_failure = true
scenario_eq LocalFakeScenario.interrupted LocalFakeScenario.interrupted = true
scenario_eq LocalFakeScenario.insufficient_measurements
      LocalFakeScenario.insufficient_measurements =
    true
scenario_eq _ _ = false

unfoldable pub runtime_eq : RuntimeSpec → RuntimeSpec → Bool
unfolding texts_eq target_eq scenario_eq
runtime_eq (RuntimeSpec.local_fake a s) (RuntimeSpec.local_fake b t) = a == b && scenario_eq s t
runtime_eq (RuntimeSpec.cpu_probe a w) (RuntimeSpec.cpu_probe b v) = a == b && w == v
runtime_eq (RuntimeSpec.llama_cpp t m n) (RuntimeSpec.llama_cpp t' m' n') =
    target_eq t t' && str_eq m m' && n == n'
runtime_eq (RuntimeSpec.vllm m r a) (RuntimeSpec.vllm m' r' a') =
    str_eq m m' && str_eq r r' && texts_eq a a'
runtime_eq _ _ = false

unfoldable pub spec_eq : ExperimentSpec → ExperimentSpec → Bool
unfolding float_eq provider_eq runtime_eq
spec_eq a b =
    provider_eq a.provider b.provider
    && runtime_eq a.runtime b.runtime
    && (str_eq a.workload.profile b.workload.profile
        && a.workload.requests == b.workload.requests
        && a.workload.concurrency == b.workload.concurrency)
    && (a.measurement.warmup_runs == b.measurement.warmup_runs
        && a.measurement.repetitions == b.measurement.repetitions)
    && float_eq a.budget.maximum_cost_usd b.budget.maximum_cost_usd
    && (a.lifecycle.maximum_runtime_seconds == b.lifecycle.maximum_runtime_seconds
        && bool_eq a.lifecycle.destroy_on_completion b.lifecycle.destroy_on_completion)
    && (bool_eq a.artifacts.public b.artifacts.public
        && str_eq a.artifacts.format b.artifacts.format)

unfoldable pub experiment_eq : Experiment → Experiment → Bool
unfolding spec_eq labels_eq
experiment_eq a b =
    str_eq a.api_version b.api_version
    && str_eq a.kind b.kind
    && (str_eq a.metadata.name b.metadata.name && labels_eq a.metadata.labels b.metadata.labels)
    && spec_eq a.spec b.spec

unfoldable pub plan_eq : ResolvedExperiment → ResolvedExperiment → Bool
unfolding experiment_eq
plan_eq a b =
    str_eq a.api_version b.api_version
    && str_eq a.kind b.kind
    && experiment_eq a.experiment b.experiment
    && str_eq a.experiment_digest b.experiment_digest
    && str_eq a.resolved_plan_digest b.resolved_plan_digest

int_eq_refl : (a : ℤ) → int_eq a a ≡ true
int_eq_refl (pos a) = ground arith
int_eq_refl (negsuc a) = ground arith

bool_eq_refl : (a : Bool) → bool_eq a a ≡ true
bool_eq_refl true = refl
bool_eq_refl false = refl

pub str_eq_refl : (s : String) → str_eq s s ≡ true
str_eq_refl s = (eq_iff s s).1 refl

float_eq_refl : (x : Float64) → is_finite x ≡ true → float_eq x x ≡ true
unfolding float_eq is_finite
float_eq_refl nan h = cc
float_eq_refl (infinite a) h = cc
float_eq_refl (finite a m e) h = ground (arith, int_eq_refl e, bool_eq_refl a)

texts_eq_refl : (s : List String) → texts_eq s s ≡ true
unfolding texts_eq
texts_eq_refl [] = refl
texts_eq_refl (a ∷ s) = ground (arith, str_eq_refl a, texts_eq_refl s)

labels_eq_refl : (s : List (String × String)) → labels_eq s s ≡ true
unfolding labels_eq
labels_eq_refl [] = refl
labels_eq_refl ((k, v) ∷ s) = ground (arith, str_eq_refl k, str_eq_refl v, labels_eq_refl s)

provider_eq_refl : (p : ProviderSpec) → provider_eq p p ≡ true
unfolding provider_eq
provider_eq_refl ProviderSpec.local_fake = refl
provider_eq_refl ProviderSpec.local = refl
provider_eq_refl (ProviderSpec.aws r AwsCapacity.spot i) =
    ground (arith, str_eq_refl r, texts_eq_refl i)
provider_eq_refl (ProviderSpec.aws r AwsCapacity.on_demand i) =
    ground (arith, str_eq_refl r, texts_eq_refl i)

scenario_eq_refl : (s : LocalFakeScenario) → scenario_eq s s ≡ true
unfolding scenario_eq
scenario_eq_refl LocalFakeScenario.success = refl
scenario_eq_refl LocalFakeScenario.runtime_failure = refl
scenario_eq_refl LocalFakeScenario.interrupted = refl
scenario_eq_refl LocalFakeScenario.insufficient_measurements = refl

target_eq_refl : (t : LlamaCppTarget) → target_eq t t ≡ true
unfolding target_eq
target_eq_refl LlamaCppTarget.cpu = refl
target_eq_refl LlamaCppTarget.nvidia_cuda = refl

runtime_eq_refl : (r : RuntimeSpec) → runtime_eq r r ≡ true
unfolding runtime_eq
runtime_eq_refl (RuntimeSpec.local_fake a s) = ground (arith, scenario_eq_refl s)
runtime_eq_refl (RuntimeSpec.cpu_probe a w) = ground arith
runtime_eq_refl (RuntimeSpec.llama_cpp t m n) = ground (arith, target_eq_refl t, str_eq_refl m)
runtime_eq_refl (RuntimeSpec.vllm m r a) =
    ground (arith, str_eq_refl m, str_eq_refl r, texts_eq_refl a)

spec_eq_refl :
    (s : ExperimentSpec) → is_finite s.budget.maximum_cost_usd ≡ true → spec_eq s s ≡ true
unfolding spec_eq
spec_eq_refl s h = ground (
  arith,
  provider_eq_refl s.provider,
  runtime_eq_refl s.runtime,
  str_eq_refl s.workload.profile,
  float_eq_refl s.budget.maximum_cost_usd h,
  bool_eq_refl s.lifecycle.destroy_on_completion,
  bool_eq_refl s.artifacts.public,
  str_eq_refl s.artifacts.format,
)

-- A plan with a finite budget equals itself.
pub plan_eq_refl :
    (p : ResolvedExperiment)
    → is_finite p.experiment.spec.budget.maximum_cost_usd ≡ true
    → plan_eq p p ≡ true
unfolding plan_eq
plan_eq_refl p h = ground (
  arith,
  str_eq_refl p.api_version,
  str_eq_refl p.kind,
  str_eq_refl p.experiment.api_version,
  str_eq_refl p.experiment.kind,
  str_eq_refl p.experiment.metadata.name,
  labels_eq_refl p.experiment.metadata.labels,
  spec_eq_refl p.experiment.spec h,
  str_eq_refl p.experiment_digest,
  str_eq_refl p.resolved_plan_digest,
)
