-- ===== src/Schema/Text.antt =====
-- The operations of `str` that the program uses, over the characters of a text.
use Prim.Native.Char.{code}
use Prim.Native.String.{String}
use benchplane.Base.{
  ℕ, Bool, true, false, not, ◌&&◌, ◌||◌, Option, none, some, List, [], ◌∷◌, leb, ◌==◌, in_range,
  if◌then◌else◌,
}

-- the characters of a text
abbrev pub chars : String → List ℕ
chars String.[] = []
chars (String.◌∷◌ c s) = code c ∷ chars s

-- `char::is_whitespace`: the characters with Unicode's property White_Space
unfoldable pub is_whitespace : ℕ → Bool
is_whitespace c =
    in_range 0x9 0xd c
    || c == 0x20
    || c == 0x85
    || c == 0xa0
    || c == 0x1680
    || in_range 0x2000 0x200a c
    || c == 0x2028
    || c == 0x2029
    || c == 0x202f
    || c == 0x205f
    || c == 0x3000

-- `value.trim().is_empty()`
unfoldable pub is_blank : String → Bool
unfolding is_whitespace
is_blank String.[] = true
is_blank (String.◌∷◌ c s) = is_whitespace (code c) && is_blank s

abbrev pub first_is_space : List ℕ → Bool
first_is_space [] = false
first_is_space (c ∷ s) = is_whitespace c

abbrev pub last_is_space : List ℕ → Bool
last_is_space [] = false
last_is_space (c ∷ []) = is_whitespace c
last_is_space (c ∷ d ∷ s) = last_is_space (d ∷ s)

-- `trim() == value`
abbrev pub is_trimmed : List ℕ → Bool
is_trimmed s = not (first_is_space s) && not (last_is_space s)

-- `char::is_control`: the category Cc
abbrev pub is_control : ℕ → Bool
is_control c = leb c 0x1f || in_range 0x7f 0x9f c

abbrev pub is_ascii_digit : ℕ → Bool
is_ascii_digit c = in_range 48 57 c

-- `strip_prefix` on the bytes of two texts
unfoldable pub strip_prefix : List ℕ → List ℕ → Option (List ℕ)
strip_prefix [] s = some s
strip_prefix (b ∷ prefix) [] = none
strip_prefix (b ∷ prefix) (c ∷ s) =
    let rest = strip_prefix prefix s in if b == c then rest else none

-- a byte in front of the first part
abbrev onto_part : ℕ → Option (List ℕ × List ℕ) → Option (List ℕ × List ℕ)
onto_part c none = none
onto_part c (some (before, after)) = some (c ∷ before, after)

-- `split_once` at a separator of one byte
unfoldable pub split_once : ℕ → List ℕ → Option (List ℕ × List ℕ)
split_once separator [] = none
split_once separator (c ∷ s) =
    let rest = split_once separator s in if c == separator then some ([], s) else onto_part c rest
