-- ===== src/Examples/Statistics.antt =====
-- The statistics and the bounds of rounded means, at concrete values.
use benchplane.Base.{
  ℤ, ◌^◌, ℕ, ◌+◌, ◌*◌, ◌≤◌, ◌<◌, ◌≡◌, refl, List, [], ◌∷◌, map, leb, ltb, some, arith,
}
use mathlib.Core.List.{Perm, Permᴰ}
use benchplane.Schema.Measurement.{LatencySummary, IntegerDelta}
use benchplane.Comparison.{compare_metric}
use benchplane.Comparison.Metrics.{magnitude, IsDelta, compare_metric_lem, IsRounded}
use benchplane.Execution.Stats.{sort, sum, nearest_rank, describe_micros}
use benchplane.Execution.Sort.{count_if}
use benchplane.Execution.Ranks.{nearest_rank_lem}
use benchplane.Execution.Mean.{describe_micros_lem, describe_micros-eq_of_perm}
use benchplane.Evidence.Means.{rounded_request_mean_bounds}
use benchplane.Evidence.Means.Sound.{ceil_micros, ceil_mean_micros, mean_bounds_allow_helper}
use benchplane.Evidence.Means.Tight.{fastest, slowest, mean_bounds_tight}

abbrev values : List ℕ
values = 30 ∷ 10 ∷ 20 ∷ []

nearest_rank_lem_example :
    (r : ℕ) × (nearest_rank (sort values) 95 ≡ some r)
    × (95 * 3 ≤ 100 * count_if (λ y. leb y r) values)
    × (100 * count_if (λ y. ltb y r) values < 95 * 3)
nearest_rank_lem_example = nearest_rank_lem values 95 (omega arith) (omega arith) (omega arith)

describe_micros_lem_example :
    (s : LatencySummary) × (describe_micros values ≡ some (some s))
    × (10 ≤ s.mean_micros)
    × (s.mean_micros ≤ 30)
    × (s.mean_micros * 3 ≤ 60)
    × (60 < (s.mean_micros + 1) * 3)
    × (10 ≤ s.p50_micros)
    × (s.p50_micros ≤ s.p95_micros)
    × (s.p95_micros ≤ 30)
describe_micros_lem_example =
    describe_micros_lem values 10 30 (omega arith) (omega arith) (ground arith)

swapped : Perm values (10 ∷ 30 ∷ 20 ∷ [])
swapped = ∣ Permᴰ.swap refl refl ∣₁

describe_micros-eq_of_perm_example : describe_micros values ≡ describe_micros (10 ∷ 30 ∷ 20 ∷ [])
describe_micros-eq_of_perm_example = describe_micros-eq_of_perm swapped

abbrev raw_nanos : List ℕ
raw_nanos = 1500 ∷ 2001 ∷ []

mean_bounds_allow_helper_example :
    (lo hi : ℕ) × (rounded_request_mean_bounds (2 ∷ 3 ∷ []) ≡ some (lo, hi))
    × (lo ≤ ceil_mean_micros 3501 2)
    × (ceil_mean_micros 3501 2 ≤ hi)
unfolding ceil_micros
mean_bounds_allow_helper_example =
    mean_bounds_allow_helper raw_nanos (omega arith) (omega arith) (omega arith)

mean_bounds_tight_example :
    (map ceil_micros (map fastest (2 ∷ 3 ∷ [])) ≡ 2 ∷ 3 ∷ [])
    × (map ceil_micros (map slowest (2 ∷ 3 ∷ [])) ≡ 2 ∷ 3 ∷ [])
    × (rounded_request_mean_bounds (2 ∷ 3 ∷ [])
        ≡ some (
          ceil_mean_micros (sum (map fastest (2 ∷ 3 ∷ []))) 2,
          ceil_mean_micros (sum (map slowest (2 ∷ 3 ∷ []))) 2,
        ))
mean_bounds_tight_example =
    mean_bounds_tight (2 ∷ 3 ∷ []) (omega arith) (omega arith, (omega arith, tt)) (omega arith)

abbrev delta : IntegerDelta
delta = (compare_metric 30 20).delta

compare_metric_lem_example :
    IsDelta delta.absolute_delta 30 20
    × (magnitude delta.absolute_delta * 100000 < 2 ^ 127)
    × (p : ℤ) × (delta.percentage_delta_milli_percent ≡ some p)
    × IsRounded p delta.absolute_delta 30
compare_metric_lem_example = compare_metric_lem 30 20 (omega arith) (omega arith) (omega arith)
