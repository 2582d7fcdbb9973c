-- ===== src/Evidence/Means/Sound.antt =====
-- The bounds that the verifier accepts for an aggregate allow for exactly the rounding of the
-- llama.cpp helper (nix/packages/benchplane-llama-cpp.cpp).
use native.Mathlib.Nat.{div-add-mod, zero-add, le_trans}
use benchplane.Base.{
  ℕ, ◌+◌, ◌-◌, ◌*◌, ◌/◌, ◌%◌, ◌≤◌, ◌<◌, ◌≡◌, refl, ◌⊎◌, inl, some, List, [], ◌∷◌, map, length, ◌==◌,
  if◌then◌else◌, u64_mod, ceil_div, max, arith, length-map,
}
use benchplane.Execution.Stats.{sum}
use benchplane.Evidence.Means.{fold_counts, mean_bounds, rounded_request_mean_bounds}

-- Durations are unbounded numbers, where the helper has `uint64_t`, which a sum of durations stays
-- below for more than five hundred years. The helper's clamp of a time to the first token by the
-- latency is not modelled.

-- `ceil_micros` of the helper
unfoldable pub ceil_micros : ℕ → ℕ
ceil_micros nanos = max 1 (nanos / 1000 + (if nanos % 1000 == 0 then 0 else 1))

-- `ceil_mean_micros` of the helper
unfoldable pub ceil_mean_micros : ℕ → ℕ → ℕ
ceil_mean_micros total_nanos count =
    if count == 0
    then 1
    else let divisor = count * 1000 in
      max 1 (total_nanos / divisor + (if total_nanos % divisor == 0 then 0 else 1))

lt_of_mul_lt : (q k d : ℕ) → q * d < k * d → q < k
lt_of_mul_lt q k d h = grind arith

pub ceil_div_le : (a d k : ℕ) → 0 < d → a ≤ k * d → ceil_div a d ≤ k
ceil_div_le a d k pos h =
    ground (arith, lt_of_mul_lt (a / d) k d, lt_of_mul_lt (a / d) (k + 1) d, div-add-mod a d)

pub le_ceil_div : (a d : ℕ) → 0 < d → a ≤ ceil_div a d * d
le_ceil_div a d pos = grind arith

pub ceil_micros_bounds :
    (n : ℕ)
    → (1 ≤ ceil_micros n)
      × (n ≤ ceil_micros n * 1000)
      × ((n ≡ 0) × (ceil_micros n ≡ 1) ⊎ (ceil_micros n * 1000 < n + 1000))
unfolding ceil_micros
ceil_micros_bounds n = ground arith

fold_counts_lem :
    (values : List ℕ) (count total : ℕ)
    → count + length values < u64_mod
    → total + sum values < u64_mod
    → fold_counts values count total ≡ some (count + length values, total + sum values)
unfolding fold_counts
fold_counts_lem [] count total h k = ground arith
fold_counts_lem (v ∷ values) count total h k =
    ground (arith, fold_counts_lem values (count + 1) (total + v))

mean_bounds_lem :
    (count total : ℕ)
    → 0 < count
    → count ≤ total
    → total < u64_mod
    → mean_bounds count total
      ≡ some (
        ceil_div ((total - count) * 1000 + count) (count * 1000),
        ceil_div (total * 1000) (count * 1000),
      )
unfolding mean_bounds
mean_bounds_lem count total pos h k =
    let spread : total ≤ total * count = grind arith in
    let divisor : 0 < count * 1000 = omega arith in
    ground (
      arith,
      ceil_div_le ((total - count) * 1000 + count) (count * 1000) total divisor (omega arith),
      ceil_div_le (total * 1000) (count * 1000) total divisor (omega arith),
    )

sums_of_rounded :
    (raw : List ℕ)
    → let rounded = sum (map ceil_micros raw) in
      (length raw ≤ rounded)
      × (sum raw ≤ rounded * 1000)
      × ((rounded ≡ length raw) ⊎ ((rounded - length raw) * 1000 < sum raw))
sums_of_rounded [] = (omega arith, omega arith, inl refl)
sums_of_rounded (n ∷ raw) = ground (arith, ceil_micros_bounds n, sums_of_rounded raw)

pub rounded_bounds_lem :
    (values : List ℕ)
    → 0 < length values
    → length values ≤ sum values
    → sum values < u64_mod
    → rounded_request_mean_bounds values
      ≡ some (
        ceil_div ((sum values - length values) * 1000 + length values) (length values * 1000),
        ceil_div (sum values * 1000) (length values * 1000),
      )
unfolding rounded_request_mean_bounds
rounded_bounds_lem values pos h k =
    rw (fold_counts_lem values 0 0 (omega arith) (omega arith))
      (rw zero-add (rw zero-add (mean_bounds_lem (length values) (sum values) pos h k)))

least_mean :
    (c m s k : ℕ)
    → c ≤ 1000
    → 1 ≤ k
    → s ≤ k * (c * 1000)
    → (m ≡ c) ⊎ ((m - c) * 1000 < s)
    → (m - c) * 1000 + c ≤ k * (c * 1000)
least_mean c m s k few pos h spread = let c_le : c ≤ k * c = grind arith in omega arith

pub ceil_mean_lem :
    (total count : ℕ)
    → 0 < count
    → ceil_mean_micros total count ≡ max 1 (ceil_div total (count * 1000))
unfolding ceil_mean_micros
ceil_mean_lem total count pos = ground arith

ceil_mean_above :
    (total count : ℕ)
    → 0 < count
    → (1 ≤ ceil_mean_micros total count) × (total ≤ ceil_mean_micros total count * (count * 1000))
ceil_mean_above total count pos =
    let k : ℕ = ceil_div total (count * 1000) in
    let up : total ≤ k * (count * 1000) = le_ceil_div total (count * 1000) (omega arith) in
    rw (ceil_mean_lem total count pos)
      (omega arith, le_trans up (mul_mono k (max 1 k) (count * 1000) (omega arith)))
  where
    mul_mono : (a b c : ℕ) → a ≤ b → a * c ≤ b * c
    mul_mono a b c h = grind arith

ceil_mean_below :
    (total count bound : ℕ)
    → 0 < count
    → 1 ≤ bound
    → total ≤ bound * (count * 1000)
    → ceil_mean_micros total count ≤ bound
ceil_mean_below total count bound pos h k =
    rw (ceil_mean_lem total count pos)
      (omega (arith, ceil_div_le total (count * 1000) bound (omega arith) k))

pub factor_pos : (a q d : ℕ) → 0 < a → a ≤ q * d → 1 ≤ q
factor_pos a q d pos h = grind arith

-- Whatever raw durations the helper measured in 1 to 1000 requests, if the sum of the rounded
-- observations fits 64 bits: the verifier has bounds for these observations, and the aggregate
-- that the helper emits lies within them.
pub mean_bounds_allow_helper :
    (raw : List ℕ)
    → 0 < length raw
    → length raw ≤ 1000
    → sum (map ceil_micros raw) < u64_mod
    → (lo hi : ℕ) × (rounded_request_mean_bounds (map ceil_micros raw) ≡ some (lo, hi))
      × (lo ≤ ceil_mean_micros (sum raw) (length raw))
      × (ceil_mean_micros (sum raw) (length raw) ≤ hi)
mean_bounds_allow_helper raw pos few fits =
    let c : ℕ = length raw in
    let m : ℕ = sum (map ceil_micros raw) in
    let s : ℕ = sum raw in
    let k : ℕ = ceil_mean_micros s c in
    let lo : ℕ = ceil_div ((m - c) * 1000 + c) (c * 1000) in
    let hi : ℕ = ceil_div (m * 1000) (c * 1000) in
    let sums = sums_of_rounded raw in
    let mean = ceil_mean_above s c pos in
    let top : m * 1000 ≤ hi * (c * 1000) = le_ceil_div (m * 1000) (c * 1000) (omega arith) in
    let bounds =
      rounded_bounds_lem (map ceil_micros raw) (omega (arith, length-map raw ceil_micros))
        (omega (arith, length-map raw ceil_micros, sums)) fits in
    (
      lo,
      hi,
      rw (length-map raw ceil_micros) at bounds,
      ceil_div_le ((m - c) * 1000 + c) (c * 1000) k (omega arith)
          (least_mean c m s k few mean.0 mean.1 sums.2),
      ceil_mean_below s c hi pos (factor_pos (m * 1000) hi (c * 1000) (omega (arith, sums)) top)
          (omega (arith, sums, top)),
    )
