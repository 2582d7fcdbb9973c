-- ===== src/Comparison.antt =====
-- crates/benchplane-core/src/comparison.rs: the numerical part of a comparison of two bundles. An
-- `expect` on a missing statistic is `none`.
pub mod Metrics
pub mod Environment
pub mod Contract
pub mod Differences
pub mod Bundles
use benchplane.Base.{
  ℕ, zero, suc, ◌+◌, ◌*◌, ◌/◌, ℤ, pos, negsuc, sub_ℕ, String, Option, none, some, List, [], ◌∷◌,
  map, length, concat, ◌==◌, and_then, if◌then◌else◌,
}
use benchplane.Schema.Evidence.{AttemptResources}
use benchplane.Schema.Measurement.{
  MeasurementRecord, RequestObservation, MetricComparison, DistributionComparison,
  RequestScopeComparison, AttemptResourceValues, AttemptResourceComparison,
}
use benchplane.Execution.{measured_records}
use benchplane.Execution.Stats.{describe_micros}

-- the number below zero of a magnitude
abbrev pub negative : ℕ → ℤ
negative zero = pos 0
negative (suc n) = negsuc n

-- `delta * 100_000 / baseline` on `i128`, which rounds towards zero
unfoldable pub milli_percent : ℤ → ℕ → ℤ
milli_percent (pos n) baseline = pos (n * 100000 / baseline)
milli_percent (negsuc n) baseline = negative (suc n * 100000 / baseline)

unfoldable pub compare_metric : ℕ → ℕ → MetricComparison
compare_metric baseline candidate = record {
  baseline = baseline;
  candidate = candidate;
  delta = record {
    absolute_delta = sub_ℕ candidate baseline;
    percentage_delta_milli_percent =
        if baseline == 0 then none else some (milli_percent (sub_ℕ candidate baseline) baseline);
  };
}

-- `none` is a panic: the `expect` on a missing summary, or in its computation
unfoldable pub compare_distribution : List ℕ → List ℕ → Option DistributionComparison
compare_distribution baseline candidate =
    and_then (and_then (describe_micros baseline) (λ b. b)) λ b.
      and_then (and_then (describe_micros candidate) (λ c. c)) λ c. some (record {
        baseline = b;
        candidate = c;
        mean = compare_metric b.mean_micros c.mean_micros;
        p50 = compare_metric b.p50_micros c.p50_micros;
        p95 = compare_metric b.p95_micros c.p95_micros;
      })

-- the observations of the measured records
unfoldable pub request_observations : List MeasurementRecord → List RequestObservation
request_observations records = concat (map (λ r. r.request_observations) (measured_records records))

unfoldable pub request_values : List MeasurementRecord → List ℕ × List ℕ
request_values records =
    let observations = request_observations records in
    (map (λ o. o.latency_micros) observations, map (λ o. o.time_to_first_token_micros) observations)

unfoldable pub compare_requests :
    List MeasurementRecord → List MeasurementRecord → Option RequestScopeComparison
compare_requests baseline candidate =
    let (baseline_latency, baseline_ttft) = request_values baseline in
    let (candidate_latency, candidate_ttft) = request_values candidate in
    and_then (compare_distribution baseline_latency candidate_latency) λ latency.
      and_then (compare_distribution baseline_ttft candidate_ttft) λ ttft. some (record {
        unit = "measuredRequest";
        baseline_count = length baseline_latency;
        candidate_count = length candidate_latency;
        latency_micros = latency;
        time_to_first_token_micros = ttft;
      })

unfoldable pub resource_values : AttemptResources → AttemptResourceValues
resource_values r = record {
  scope = r.scope;
  cpu_time_micros = r.cpu_time_micros;
  peak_rss_bytes = r.peak_rss_bytes;
}

abbrev resources_of :
    Option AttemptResourceValues
    → Option AttemptResourceValues
    → Option MetricComparison
    → Option MetricComparison
    → Option AttemptResourceComparison
resources_of baseline candidate cpu rss = some (record {
  unit = "helperProcessLifetime";
  baseline = baseline;
  candidate = candidate;
  cpu_time_micros = cpu;
  peak_rss_bytes = rss;
})

unfoldable pub compare_resources :
    Option AttemptResources → Option AttemptResources → Option AttemptResourceComparison
compare_resources none none = none
compare_resources (some b) none = resources_of (some (resource_values b)) none none none
compare_resources none (some c) = resources_of none (some (resource_values c)) none none
compare_resources (some b) (some c) =
    resources_of (some (resource_values b)) (some (resource_values c))
      (some (compare_metric b.cpu_time_micros c.cpu_time_micros))
      (some (compare_metric b.peak_rss_bytes c.peak_rss_bytes))
