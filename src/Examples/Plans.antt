-- ===== src/Examples/Plans.antt =====
-- Documents and records for the checks at concrete inputs.
use benchplane.Base.{
  ℕ, ◌+◌, ◌-◌, pos, String, false, List, [], ◌∷◌, Result, ok, err, ◌==◌, if◌then◌else◌,
}
use benchplane.Schema.Float64.{Float64}
use benchplane.Schema.Experiment.{
  ProviderSpec, RuntimeSpec, LocalFakeScenario, LlamaCppTarget, Experiment, ResolvedExperiment,
  api_version, experiment_kind, default_lifecycle, default_artifacts, cpu_probe_workload_profile,
  llama_cpp_workload_profile, llama_cpp_model_identity,
}
use benchplane.Schema.Measurement.{MeasurementPhase, MeasurementRecord, RequestObservation}

abbrev pub experiment : ProviderSpec → RuntimeSpec → String → Experiment
experiment provider runtime profile = record {
  api_version = api_version;
  kind = experiment_kind;
  metadata = record { name = "example"; labels = [] };
  spec = record {
    provider = provider;
    runtime = runtime;
    workload = record { profile = profile; requests = 2; concurrency = 1 };
    measurement = record { warmup_runs = 1; repetitions = 2 };
    budget = record { maximum_cost_usd = Float64.finite false 0 (pos 0) };
    lifecycle = default_lifecycle;
    artifacts = default_artifacts;
  };
}

abbrev pub resolved : Experiment → ResolvedExperiment
resolved e = record {
  api_version = api_version;
  kind = "ResolvedExperiment";
  experiment = e;
  experiment_digest = "sha256:experiment";
  resolved_plan_digest = "sha256:plan";
}

abbrev pub fake_experiment : Experiment
fake_experiment =
    experiment ProviderSpec.local_fake (RuntimeSpec.local_fake 7 LocalFakeScenario.success) "chat"

abbrev pub probe_experiment : Experiment
probe_experiment =
    experiment ProviderSpec.local (RuntimeSpec.cpu_probe 4 1000) cpu_probe_workload_profile

abbrev pub llama_experiment : Experiment
llama_experiment =
    experiment ProviderSpec.local
      (RuntimeSpec.llama_cpp LlamaCppTarget.cpu llama_cpp_model_identity 4)
      llama_cpp_workload_profile

abbrev pub fake_plan : ResolvedExperiment
fake_plan = resolved fake_experiment

abbrev pub probe_plan : ResolvedExperiment
probe_plan = resolved probe_experiment

abbrev pub llama_plan : ResolvedExperiment
llama_plan = resolved llama_experiment

abbrev pub sample : String → MeasurementPhase → ℕ → List RequestObservation → MeasurementRecord
sample generator phase index observations = record {
  generator = generator;
  attempt_number = 1;
  phase = phase;
  repetition_index = index;
  sample_index = 1;
  latency_micros = 20000;
  time_to_first_token_micros = 2000;
  throughput_milli_requests_per_second = 30000;
  successful_requests = 2;
  failed_requests = 0;
  request_observations = observations;
}

abbrev pub observations : List RequestObservation
observations =
    record { request_index = 1; latency_micros = 19999; time_to_first_token_micros = 2000 }
    ∷ record { request_index = 2; latency_micros = 20001; time_to_first_token_micros = 2000 }
    ∷ []

abbrev pub samples : String → List RequestObservation → List MeasurementRecord
samples generator os =
    sample generator MeasurementPhase.warmup 1 os
    ∷ sample generator MeasurementPhase.measured 1 os
    ∷ sample generator MeasurementPhase.measured 2 os
    ∷ []

abbrev letter : MeasurementPhase → ℕ
letter MeasurementPhase.warmup = 87
letter MeasurementPhase.measured = 77

-- a two-letter encoding of the sample records in place of JSON
abbrev pub encode : MeasurementRecord → List ℕ
encode r = letter r.phase ∷ (48 + r.repetition_index) ∷ []

abbrev pub decode : String → List ℕ → Result MeasurementRecord String
decode generator (p ∷ c ∷ []) =
    if p == 87
    then ok (sample generator MeasurementPhase.warmup (c - 48) [])
    else if p == 77
    then ok (sample generator MeasurementPhase.measured (c - 48) [])
    else err "not a record"
decode generator _ = err "not a record"
