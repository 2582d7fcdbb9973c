-- ===== src/Evidence/Means.antt =====
-- `rounded_request_mean_bounds` of crates/benchplane-core/src/evidence.rs, and the helper's
-- rounding in nix/packages/benchplane-llama-cpp.cpp that it allows for.
pub mod Sound
pub mod Tight
use benchplane.Base.{
  ℕ, zero, suc, ◌+◌, ◌-◌, ◌*◌, ◌/◌, ◌%◌, ◌≤◌, ◌<◌, ◌≡◌, refl, Bool, true, false, ◌||◌, Option, none,
  some, List, [], ◌∷◌, map, length, ltb, ◌==◌, if◌then◌else◌, and_then, checked, u64_mod, u128_mod,
  checked_add_u128, checked_mul_u128, ceil_div, max,
}

-- the `try_fold`: the count and the sum so far
fold_counts : List ℕ → ℕ → ℕ → Option (ℕ × ℕ)
fold_counts [] count total = some (count, total)
fold_counts (value ∷ values) count total = elim (checked_add_u128 count 1) [
  | none ↦ none
  | some count' ↦ elim (checked_add_u128 total value) [
    | none ↦ none
    | some total' ↦ fold_counts values count' total'
  ]
]

-- `checked_sub`
abbrev pub checked_sub : ℕ → ℕ → Option ℕ
checked_sub a b = if ltb a b then none else some (a - b)

-- the bounds for a count and a sum of rounded micros
unfoldable pub mean_bounds : ℕ → ℕ → Option (ℕ × ℕ)
mean_bounds count rounded_micros =
    if count == 0 || ltb rounded_micros count
    then none
    else and_then (checked_sub rounded_micros count) λ excess.
      and_then (checked_mul_u128 excess 1000) λ nanos.
        and_then (checked_add_u128 nanos count) λ minimum_raw_nanos.
          and_then (checked_mul_u128 rounded_micros 1000) λ maximum_raw_nanos.
            and_then (checked_mul_u128 count 1000) λ divisor.
              and_then (checked u64_mod (ceil_div minimum_raw_nanos divisor)) λ minimum.
                and_then (checked u64_mod (ceil_div maximum_raw_nanos divisor))
                  λ maximum. some (minimum, maximum)

unfoldable pub rounded_request_mean_bounds : List ℕ → Option (ℕ × ℕ)
unfolding fold_counts
rounded_request_mean_bounds values =
    and_then (fold_counts values 0 0) λ (count, rounded_micros). mean_bounds count rounded_micros
