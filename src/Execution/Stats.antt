-- ===== src/Execution/Stats.antt =====
-- The integer statistics of crates/benchplane-core/src/execution.rs: a mean rounded down and
-- nearest-rank percentiles.
use benchplane.Base.{
  ℕ, suc, ◌+◌, ◌-◌, ◌*◌, ◌/◌, List, [], ◌∷◌, Option, none, some, length, leb, if◌then◌else◌,
  checked, u64_mod, ceil_div, and_then,
}
use benchplane.Schema.Measurement.{LatencySummary}

-- `sort_unstable` on integers: the ascending arrangement, which is the only one
abbrev pub insert : ℕ → List ℕ → List ℕ
insert x [] = x ∷ []
insert x (y ∷ ys) = if leb x y then x ∷ y ∷ ys else y ∷ insert x ys

unfoldable pub sort : List ℕ → List ℕ
sort [] = []
sort (x ∷ xs) = insert x (sort xs)

-- the exact sum; a sum of u64 values in u128 does not overflow
abbrev pub sum : List ℕ → ℕ
sum [] = 0
sum (x ∷ xs) = x + sum xs

unfoldable pub mean_u64 : List ℕ → Option ℕ
mean_u64 [] = none
mean_u64 (x ∷ xs) = checked u64_mod (sum (x ∷ xs) / length (x ∷ xs))

-- `xs[i]`; an index out of range, a panic, gives `none`
abbrev pub index : List ℕ → ℕ → Option ℕ
index [] i = none
index (x ∷ xs) ℕ.zero = some x
index (x ∷ xs) (suc i) = index xs i

unfoldable pub rank : ℕ → ℕ → ℕ
rank percentile count = ceil_div (percentile * count) 100

-- `none` is a panic
unfoldable pub nearest_rank : List ℕ → ℕ → Option ℕ
nearest_rank sorted percentile = index sorted (rank percentile (length sorted) - 1)

-- the summary of a sorted list with its mean; `none` is a panic
abbrev pub describe_sorted : List ℕ → ℕ → Option LatencySummary
describe_sorted sorted mean = and_then (nearest_rank sorted 50) λ p50.
    and_then (nearest_rank sorted 95)
      λ p95. some (record { mean_micros = mean; p50_micros = p50; p95_micros = p95 })

-- the source's result, in an option of which `none` is a panic
unfoldable pub describe_micros : List ℕ → Option (Option LatencySummary)
describe_micros [] = some none
describe_micros (x ∷ xs) = elim (mean_u64 (sort (x ∷ xs))) [
  | none ↦ some none
  | some mean ↦ and_then (describe_sorted (sort (x ∷ xs)) mean) λ summary. some (some summary)
]
