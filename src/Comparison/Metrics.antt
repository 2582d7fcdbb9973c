-- ===== src/Comparison/Metrics.antt =====
-- The deltas of crates/benchplane-core/src/comparison.rs.
use native.Mathlib.Nat.{div-add-mod', mod-lt}
use benchplane.Base.{
  ℕ, suc, ◌+◌, ◌*◌, ◌/◌, ◌≤◌, ◌<◌, ◌≡◌, refl, ℤ, pos, negsuc, sub_ℕ, some, u64_mod, arith, ◌^◌, leb,
  Bool-cases, inl, inr,
}
use benchplane.Comparison.{negative, milli_percent, compare_metric}

-- the magnitude of an integer
abbrev pub magnitude : ℤ → ℕ
magnitude (pos n) = n
magnitude (negsuc n) = suc n

quotient_bounds : (a b : ℕ) → 0 < b → (a / b * b ≤ a) × (a < (a / b + 1) * b)
quotient_bounds a b h = grind (arith, div-add-mod' a b, mod-lt a h)

-- a magnitude of the percentage, rounded down
abbrev Quotient : ℕ → ℕ → ℕ → Type 0
Quotient q d baseline = (q * baseline ≤ d * 100000) × (d * 100000 < (q + 1) * baseline)

-- A percentage is the delta times 100000 over the baseline, rounded towards zero: it has the sign of
-- the delta, or is zero.
abbrev pub IsRounded : ℤ → ℤ → ℕ → Type 0
IsRounded p (pos d) baseline = (q : ℕ) × (p ≡ pos q) × Quotient q d baseline
IsRounded p (negsuc d) baseline = (q : ℕ) × (p ≡ negative q) × Quotient q (suc d) baseline

milli_percent_lem :
    (delta : ℤ) (baseline : ℕ)
    → 0 < baseline
    → IsRounded (milli_percent delta baseline) delta baseline
unfolding milli_percent
milli_percent_lem (pos n) baseline h =
    (n * 100000 / baseline, refl, quotient_bounds (n * 100000) baseline h)
milli_percent_lem (negsuc n) baseline h =
    (suc n * 100000 / baseline, refl, quotient_bounds (suc n * 100000) baseline h)

-- the integer by which the candidate exceeds the baseline
abbrev pub IsDelta : ℤ → ℕ → ℕ → Type 0
IsDelta (pos d) baseline candidate = candidate ≡ baseline + d
IsDelta (negsuc d) baseline candidate = baseline ≡ candidate + suc d

sub_ℕ-IsDelta : (baseline candidate : ℕ) → IsDelta (sub_ℕ candidate baseline) baseline candidate
sub_ℕ-IsDelta baseline candidate = elim (Bool-cases (leb baseline candidate)) [
  | inl above ↦ rw above (ground arith)
  | inr below ↦ rw below (ground arith)
]

magnitude-lt :
    (delta : ℤ) (baseline candidate : ℕ)
    → baseline < u64_mod
    → candidate < u64_mod
    → IsDelta delta baseline candidate
    → magnitude delta * 100000 < 2 ^ 127
magnitude-lt (pos d) baseline candidate hb hc h = omega arith
magnitude-lt (negsuc d) baseline candidate hb hc h = omega arith

-- Two u64 values, the baseline above zero: the delta is exactly the candidate less the baseline,
-- its product with 100000 fits an i128, and there is a percentage, which is this product over the
-- baseline rounded towards zero, with the sign of the delta unless it is zero.
pub compare_metric_lem :
    (baseline candidate : ℕ)
    → 0 < baseline
    → baseline < u64_mod
    → candidate < u64_mod
    → let delta = (compare_metric baseline candidate).delta in
      IsDelta delta.absolute_delta baseline candidate
      × (magnitude delta.absolute_delta * 100000 < 2 ^ 127)
      × (p : ℤ) × (delta.percentage_delta_milli_percent ≡ some p)
      × IsRounded p delta.absolute_delta baseline
unfolding compare_metric
compare_metric_lem baseline candidate h hb hc =
    let delta = sub_ℕ candidate baseline in
    let exact = sub_ℕ-IsDelta baseline candidate in
    (
      exact,
      magnitude-lt delta baseline candidate hb hc exact,
      milli_percent delta baseline,
      ground arith,
      milli_percent_lem delta baseline h,
    )
