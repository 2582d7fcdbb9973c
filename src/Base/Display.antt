-- ===== src/Base/Display.antt =====
-- `format!` with `{}`: the pieces of the text, a number in decimal digits.
use Prim.Native.String.{◌++◌}
use benchplane.Base.Tests.{◌==◌}
use Prim.Native.Nat.{ℕ, zero, suc, ◌/◌, ◌%◌}
use Prim.Native.String.{String}
use mathlib.Core.Bool.{true, false}
use mathlib.Core.List.{List, [], ◌∷◌}

digit : ℕ → String
digit zero = "0"
digit (suc zero) = "1"
digit (suc (suc zero)) = "2"
digit (suc (suc (suc zero))) = "3"
digit (suc (suc (suc (suc zero)))) = "4"
digit (suc (suc (suc (suc (suc zero))))) = "5"
digit (suc (suc (suc (suc (suc (suc zero)))))) = "6"
digit (suc (suc (suc (suc (suc (suc (suc zero))))))) = "7"
digit (suc (suc (suc (suc (suc (suc (suc (suc zero)))))))) = "8"
digit _ = "9"

-- A number has at most as many digits as its successor counts, so the fuel of `decimal` suffices.
decimal_from : ℕ → ℕ → String → String
unfolding digit
decimal_from zero n later = later
decimal_from (suc fuel) n later = elim (n / 10 == 0) [
  | true ↦ digit (n % 10) ++ later
  | false ↦ decimal_from fuel (n / 10) (digit (n % 10) ++ later)
]

unfoldable pub decimal : ℕ → String
unfolding decimal_from
decimal n = decimal_from (suc n) n ""

unfoldable pub format : List String → String
format [] = ""
format (s ∷ pieces) = s ++ format pieces
