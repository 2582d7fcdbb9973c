-- ===== src/Base/Bytes.antt =====
-- Bytes: big-endian words and the UTF-8 form of a text.
use Prim.Native.Nat.{ℕ, zero, suc, ◌+◌, ◌*◌, ◌/◌, ◌%◌, ◌^◌, ◌<◌}
use Prim.Native.Char.{code}
use Prim.Native.String.{String}
use mathlib.Core.Path.{◌≡◌, refl}
use mathlib.Core.List.{List, [], ◌∷◌, ◌++◌}
use native.Mathlib.Nat.{pow-suc}
use native.Mathlib.Omega.{arith}
use benchplane.Base.Tests.{ltb, if◌then◌else◌}
use benchplane.Base.Lists.{length, length-append}

-- `to_be_bytes` of a word of so many bytes
unfoldable pub to_be_bytes : ℕ → ℕ → List ℕ
to_be_bytes zero n = []
to_be_bytes (suc width) n = to_be_bytes width (n / 256) ++ (n % 256) ∷ []

-- `from_be_bytes`, with the value of the bytes in front
unfoldable pub from_be_bytes : ℕ → List ℕ → ℕ
from_be_bytes value [] = value
from_be_bytes value (b ∷ bytes) = from_be_bytes (value * 256 + b) bytes

pub length-to_be_bytes : (width n : ℕ) → length (to_be_bytes width n) ≡ width
unfolding to_be_bytes
length-to_be_bytes zero n = refl
length-to_be_bytes (suc width) n = omega (
  arith,
  length-append (to_be_bytes width (n / 256)) ((n % 256) ∷ []),
  length-to_be_bytes width (n / 256),
)

from_be_bytes-append :
    (value : ℕ) (bytes : List ℕ) (b : ℕ)
    → from_be_bytes value (bytes ++ b ∷ []) ≡ from_be_bytes value bytes * 256 + b
unfolding from_be_bytes
from_be_bytes-append value [] b = refl
from_be_bytes-append value (c ∷ bytes) b = from_be_bytes-append (value * 256 + c) bytes b

pub from_be_bytes-to_be_bytes :
    (width n : ℕ) → n < 256 ^ width → from_be_bytes 0 (to_be_bytes width n) ≡ n
unfolding to_be_bytes from_be_bytes
from_be_bytes-to_be_bytes zero n h = omega arith
from_be_bytes-to_be_bytes (suc width) n h = omega (
  arith,
  from_be_bytes-append 0 (to_be_bytes width (n / 256)) (n % 256),
  from_be_bytes-to_be_bytes width (n / 256) (omega (arith, pow-suc 256 width)),
)

-- `as_bytes`: UTF-8
encode : ℕ → List ℕ
encode c =
    if ltb c 0x80
    then c ∷ []
    else if ltb c 0x800
    then (0xc0 + c / 64) ∷ (0x80 + c % 64) ∷ []
    else if ltb c 0x10000
    then (0xe0 + c / 4096) ∷ (0x80 + c / 64 % 64) ∷ (0x80 + c % 64) ∷ []
    else (0xf0 + c / 262144) ∷ (0x80 + c / 4096 % 64) ∷ (0x80 + c / 64 % 64) ∷ (0x80 + c % 64) ∷ []

unfoldable pub as_bytes : String → List ℕ
unfolding encode
as_bytes String.[] = []
as_bytes (String.◌∷◌ c s) = encode (code c) ++ as_bytes s
