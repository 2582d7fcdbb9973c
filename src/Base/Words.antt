-- ===== src/Base/Words.antt =====
-- Rust's fixed-width integers: a value is a number below the modulus of its type, `checked_*`
-- returns `None` where the exact result does not fit, and `saturating_sub` is `-` on ℕ.
use Prim.Native.Nat.{ℕ, ◌+◌, ◌*◌, ◌/◌, ◌%◌}
use mathlib.Core.Option.{Option, none, some}
use benchplane.Base.Tests.{ltb, ◌==◌, if◌then◌else◌}

abbrev pub u32_mod : ℕ
u32_mod = 4294967296

abbrev pub u64_mod : ℕ
u64_mod = 18446744073709551616

abbrev pub u128_mod : ℕ
u128_mod = 340282366920938463463374607431768211456

-- The exact result of an operation, if it fits below the modulus.
abbrev pub checked : ℕ → ℕ → Option ℕ
checked modulus n = if ltb n modulus then some n else none

abbrev pub checked_add_u32 : ℕ → ℕ → Option ℕ
checked_add_u32 a b = checked u32_mod (a + b)

abbrev pub checked_mul_u64 : ℕ → ℕ → Option ℕ
checked_mul_u64 a b = checked u64_mod (a * b)

-- `usize` is 64 bits wide on the two supported targets
abbrev pub checked_mul_usize : ℕ → ℕ → Option ℕ
checked_mul_usize a b = checked u64_mod (a * b)

abbrev pub checked_add_u128 : ℕ → ℕ → Option ℕ
checked_add_u128 a b = checked u128_mod (a + b)

abbrev pub checked_mul_u128 : ℕ → ℕ → Option ℕ
checked_mul_u128 a b = checked u128_mod (a * b)

-- `div_ceil`, for a divisor above 0
abbrev pub ceil_div : ℕ → ℕ → ℕ
ceil_div a b = a / b + (if a % b == 0 then 0 else 1)
