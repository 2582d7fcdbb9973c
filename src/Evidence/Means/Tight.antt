-- ===== src/Evidence/Means/Tight.antt =====
-- The verifier's bounds on an aggregate are the best ones: raw durations that round to the same
-- observations reach both ends.
use benchplane.Base.{
  ℕ, ◌+◌, ◌-◌, ◌*◌, ◌≤◌, ◌<◌, ◌≡◌, ◌∙◌, some, List, [], ◌∷◌, map, length, u64_mod, ceil_div, arith,
  All,
}
use benchplane.Execution.Stats.{sum}
use benchplane.Evidence.Means.{rounded_request_mean_bounds}
use benchplane.Evidence.Means.Sound.{
  ceil_micros, ceil_mean_micros, ceil_micros_bounds, rounded_bounds_lem, ceil_mean_lem, le_ceil_div,
  factor_pos,
}

pub fastest : ℕ → ℕ
fastest micros = (micros - 1) * 1000 + 1

pub slowest : ℕ → ℕ
slowest micros = micros * 1000

rounds_back :
    (values : List ℕ)
    → All (λ v. 1 ≤ v) values
    → (map ceil_micros (map fastest values) ≡ values)
      × (map ceil_micros (map slowest values) ≡ values)
      × (length values ≤ sum values)
      × (sum (map fastest values) ≡ (sum values - length values) * 1000 + length values)
      × (sum (map slowest values) ≡ sum values * 1000)
unfolding fastest slowest
rounds_back [] h = ground arith
rounds_back (v ∷ values) h =
    let rest = rounds_back values h.1 in
    let low : ceil_micros ((v - 1) * 1000 + 1) ≡ v =
      omega (arith, ceil_micros_bounds ((v - 1) * 1000 + 1), h.0) in
    let high : ceil_micros (v * 1000) ≡ v = omega (arith, ceil_micros_bounds (v * 1000), h.0) in
    (cc (low, rest.0), cc (high, rest.1), omega arith, omega arith, omega arith)

ceil_mean_pos :
    (total count : ℕ)
    → 0 < count
    → 0 < total
    → ceil_mean_micros total count ≡ ceil_div total (count * 1000)
ceil_mean_pos total count pos some_time =
    let k : ℕ = ceil_div total (count * 1000) in
    let one : 1 ≤ k =
      factor_pos total k (count * 1000) some_time
        (le_ceil_div total (count * 1000) (omega arith)) in
    ceil_mean_lem total count pos ∙ omega arith

-- For a non-empty list of positive observations, whose sum fits 64 bits, both bounds are aggregates that the helper emits for raw durations
-- which it rounds to these observations: the shortest and the longest such durations.
pub mean_bounds_tight :
    (values : List ℕ)
    → 0 < length values
    → All (λ v. 1 ≤ v) values
    → sum values < u64_mod
    → let low = map fastest values in
      let high = map slowest values in
      (map ceil_micros low ≡ values)
      × (map ceil_micros high ≡ values)
      × (rounded_request_mean_bounds values
          ≡ some (
            ceil_mean_micros (sum low) (length values),
            ceil_mean_micros (sum high) (length values),
          ))
mean_bounds_tight values pos h fits =
    let back = rounds_back values h in
    let c : ℕ = length values in
    let m : ℕ = sum values in
    (
      back.0,
      back.1,
      rw
          (
            back.3,
            back.4,
            ceil_mean_pos ((m - c) * 1000 + c) c pos (omega arith),
            ceil_mean_pos (m * 1000) c pos (omega (arith, back)),
          )
          (rounded_bounds_lem values pos back.2 fits),
    )
