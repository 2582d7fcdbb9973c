-- ===== src/Schema/Float64.antt =====
-- `f64`, as far as the program looks at one: whether it is finite, and its order with 0.0. A
-- finite value is a sign, a significand and a binary exponent, so both zeros are represented.
use benchplane.Base.{ℕ, ℤ, Bool, true, false, ◌&&◌, ◌||◌, not, ◌==◌}

pub data Float64 : Type 0 where
  nan : Float64
  infinite : Bool → Float64
  finite : Bool → ℕ → ℤ → Float64

-- `f64::is_finite`
unfoldable pub is_finite : Float64 → Bool
is_finite (finite negative significand exponent) = true
is_finite _ = false

-- `x < 0.0`, false for NaN and for -0.0
unfoldable pub lt_zero : Float64 → Bool
lt_zero nan = false
lt_zero (infinite negative) = negative
lt_zero (finite negative significand exponent) = negative && not (significand == 0)

-- `x <= 0.0`, true for -0.0
unfoldable pub le_zero : Float64 → Bool
le_zero nan = false
le_zero (infinite negative) = negative
le_zero (finite negative significand exponent) = negative || significand == 0
