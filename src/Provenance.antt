-- ===== src/Provenance.antt =====
-- crates/benchplane-core/src/provenance.rs: of this file the test of an NVIDIA driver's version.
pub mod Capture
use benchplane.Base.{
  ℕ, ◌+◌, ◌-◌, ◌*◌, Bool, false, ◌&&◌, ◌||◌, Option, none, some, List, [], ◌∷◌, String, ltb, leb,
  ◌==◌, if◌then◌else◌, u32_mod,
}
use benchplane.Schema.Text.{chars, is_ascii_digit}

-- a character in front of the first piece
abbrev pub onto_first : ℕ → List (List ℕ) → List (List ℕ)
onto_first c [] = (c ∷ []) ∷ []
onto_first c (piece ∷ rest) = (c ∷ piece) ∷ rest

-- `split`: one piece more than there are separators
unfoldable pub split : ℕ → List ℕ → List (List ℕ)
split separator [] = [] ∷ []
split separator (c ∷ s) =
    let rest = split separator s in if c == separator then [] ∷ rest else onto_first c rest

-- the digits of a `u32`, behind the value of those in front
unfoldable pub parse_digits : ℕ → List ℕ → Option ℕ
parse_digits value [] = some value
parse_digits value (c ∷ s) =
    let rest = parse_digits (value * 10 + (c - 48)) s in
    if is_ascii_digit c && ltb (value * 10 + (c - 48)) u32_mod then rest else none

-- `parse::<u32>`, which takes a sign `+`
unfoldable pub parse_u32 : List ℕ → Option ℕ
unfolding parse_digits
parse_u32 [] = none
parse_u32 (c ∷ []) = parse_digits 0 (c ∷ [])
parse_u32 (c ∷ d ∷ s) = if c == 43 then parse_digits 0 (d ∷ s) else parse_digits 0 (c ∷ d ∷ s)

-- `(major, minor, patch) >= (575, 57, 8)`, the derived order of tuples
unfoldable pub is_minimum_version : ℕ → ℕ → ℕ → Bool
is_minimum_version major minor patch =
    ltb 575 major || (major == 575 && (ltb 57 minor || (minor == 57 && leb 8 patch)))

abbrev version_of : Option ℕ → Option ℕ → Option ℕ → Bool
version_of (some major) (some minor) (some patch) = is_minimum_version major minor patch
version_of _ _ _ = false

abbrev version_from : List (List ℕ) → Bool
version_from (major ∷ minor ∷ []) = version_of (parse_u32 major) (parse_u32 minor) (some 0)
version_from (major ∷ minor ∷ patch ∷ []) =
    version_of (parse_u32 major) (parse_u32 minor) (parse_u32 patch)
version_from _ = false

unfoldable pub nvidia_driver_version_supported : String → Bool
unfolding split parse_u32 is_minimum_version
nvidia_driver_version_supported value = version_from (split 46 (chars value))
