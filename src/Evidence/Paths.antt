-- ===== src/Evidence/Paths.antt =====
-- The checks of a payload's name in crates/benchplane-core/src/evidence.rs: `validate_relative_path`
-- and `normalized_relative_path`. A path is its characters; its components are those of `std::path`
-- on Unix.
use benchplane.Base.{
  Option, none, some, and_then, ℕ, ◌+◌, ◌<◌, ◌≡◌, ◌≢◌, ◌⊎◌, refl, ap, ◌∙◌, sym, String, Bool, true,
  false, not, ◌||◌, List, [], ◌∷◌, ◌++◌, length, length-append, all, All, ◌==◌, str_eq,
  if◌then◌else◌, ok, err, fail_if, arith, Bool-cases, inl, inr,
}
use benchplane.Evidence.Outcome.{Outcome, ◌>>=◌, ◌>>◌}
use benchplane.Schema.Text.{chars}
use benchplane.Execution.{is_empty}
use benchplane.Provenance.{split, onto_first}
use benchplane.Evidence.Error.{EvidenceError}
use benchplane.Evidence.Records.{Checked}
use benchplane.Evidence.Manifest.{bytes_eq}

-- `Component`, as far as the checks tell them apart
pub data Component : Type 0 where
  normal : List ℕ → Component
  other : Component

abbrev dot : List ℕ
dot = 46 ∷ []

abbrev dots : List ℕ
dots = 46 ∷ 46 ∷ []

abbrev named : List ℕ → Component
named piece = if bytes_eq piece dots then other else normal piece

-- the pieces behind the first one: an empty one and `.` are no components
unfoldable pub later_components : List (List ℕ) → List Component
unfolding bytes_eq
later_components [] = []
later_components (piece ∷ pieces) =
    let rest = later_components pieces in
    if is_empty piece || bytes_eq piece dot then rest else named piece ∷ rest

-- a path that begins with a separator has a root, one that begins with `.` a current directory
abbrev first_component : List ℕ → Component
first_component piece = if is_empty piece || bytes_eq piece dot then other else named piece

abbrev components_from : List (List ℕ) → List Component
components_from [] = []
components_from (piece ∷ pieces) = first_component piece ∷ later_components pieces

unfoldable pub components : List ℕ → List Component
unfolding later_components split bytes_eq
components [] = []
components (c ∷ s) = components_from (split 47 (c ∷ s))

abbrev is_normal : Component → Bool
is_normal (normal piece) = true
is_normal other = false

-- the `map` over the components and `join("/")`; `none` is its `unreachable!`
unfoldable pub join : List Component → Option (List ℕ)
join [] = some []
join (normal piece ∷ []) = some piece
join (normal piece ∷ c ∷ rest) = and_then (join (c ∷ rest)) λ tail. some (piece ++ 47 ∷ tail)
join (other ∷ rest) = none

-- the normal components with a separator between them
unfoldable pub joined : List Component → List ℕ
joined [] = []
joined (normal piece ∷ []) = piece
joined (normal piece ∷ c ∷ rest) = piece ++ 47 ∷ joined (c ∷ rest)
joined (other ∷ rest) = joined rest

-- an absolute path has a component that is not normal
unfoldable pub validate_relative_path : String → Checked
validate_relative_path relative =
    let s = chars relative in
    fail_if (is_empty s || str_eq relative "SHA256SUMS" || not (all is_normal (components s)))
      (EvidenceError.unsafe_path relative)

-- of a path that is a text
unfoldable pub normalized_relative_path : String → Outcome (List ℕ)
normalized_relative_path path =
    let s = chars path in
    if is_empty s || not (all is_normal (components s))
    then some (err (EvidenceError.unsafe_path path))
    else and_then (join (components s)) λ normalized. some (ok normalized)

-- the two checks of a name in the checksum file
unfoldable pub check_name : String → Outcome (Unit {0})
check_name relative = do
  some (validate_relative_path relative)
  normalized ← normalized_relative_path relative
  some (fail_if (not (bytes_eq normalized (chars relative))) (EvidenceError.unsafe_path relative))

-- a piece that names an entry of its directory
abbrev pub IsEntry : List ℕ → Type 0
IsEntry piece = (piece ≢ []) × (piece ≢ dot) × (piece ≢ dots)

false_of_true : false ≡ true → ⊥
false_of_true h = cc

-- the characters that pieces stand for, with a separator behind each
abbrev width : List (List ℕ) → ℕ
width [] = 0
width (piece ∷ pieces) = length piece + 1 + width pieces

width-onto_first :
    (c : ℕ) (pieces : List (List ℕ)) → pieces ≢ [] → width (onto_first c pieces) ≡ 1 + width pieces
width-onto_first c [] h = absurd (h refl)
width-onto_first c (piece ∷ rest) h = omega arith

onto_first-filled : (c : ℕ) (pieces : List (List ℕ)) → onto_first c pieces ≢ []
onto_first-filled c [] h = cc
onto_first-filled c (piece ∷ rest) h = cc

split-filled : (separator : ℕ) (s : List ℕ) → split separator s ≢ []
unfolding split
split-filled separator [] h = cc
split-filled separator (c ∷ s) h = elim (Bool-cases (c == separator)) [
  | inl same ↦ ground arith
  | inr differs ↦ onto_first-filled c (split separator s) (ground arith)
]

width-split : (s : List ℕ) → width (split 47 s) ≡ length s + 1
unfolding split
width-split [] = refl
width-split (c ∷ s) = elim (Bool-cases (c == 47)) [
  | inl same ↦ ground (arith, width-split s)
  | inr differs ↦ ground (arith, width-split s, width-onto_first c (split 47 s) (split-filled 47 s))
]

-- the same of the normal components
abbrev join_width : List Component → ℕ
join_width [] = 0
join_width (normal piece ∷ rest) = length piece + 1 + join_width rest
join_width (other ∷ rest) = join_width rest

join_width_lem :
    (cs : List Component)
    → cs ≢ []
    → all is_normal cs ≡ true
    → length (joined cs) + 1 ≡ join_width cs
unfolding joined
join_width_lem [] h k = absurd (h refl)
join_width_lem (other ∷ rest) h k = absurd (ground arith)
join_width_lem (normal piece ∷ []) h k = omega arith
join_width_lem (normal piece ∷ c ∷ rest) h k =
    ground
      (arith, length-append piece (47 ∷ joined (c ∷ rest)), join_width_lem (c ∷ rest) (λ e. cc))

bytes_eq_lem : (a b : List ℕ) → bytes_eq a b ≡ true → a ≡ b
unfolding bytes_eq
bytes_eq_lem [] [] h = refl
bytes_eq_lem [] (c ∷ b) h = cc
bytes_eq_lem (c ∷ a) [] h = cc
bytes_eq_lem (c ∷ a) (d ∷ b) h = ground (arith, bytes_eq_lem a b)

entry_lem :
    (piece : List ℕ)
    → is_empty piece ≡ false
    → bytes_eq piece dot ≡ false
    → bytes_eq piece dots ≡ false
    → IsEntry piece
unfolding bytes_eq
entry_lem piece h k l = (
  λ (e : piece ≡ []). false_of_true (sym h ∙ ap is_empty e),
  λ (e : piece ≡ dot). false_of_true (sym k ∙ ap (λ q. bytes_eq q dot) e),
  λ (e : piece ≡ dots). false_of_true (sym l ∙ ap (λ q. bytes_eq q dots) e),
)

-- Either each piece is a component that names an entry, or a piece has been passed over.
later_lem :
    (pieces : List (List ℕ))
    → all is_normal (later_components pieces) ≡ true
    → ((join_width (later_components pieces) ≡ width pieces) × All IsEntry pieces)
      ⊎ (join_width (later_components pieces) < width pieces)
unfolding later_components
later_lem [] h = inl (refl, tt)
later_lem (piece ∷ pieces) h = elim (Bool-cases (is_empty piece || bytes_eq piece dot)) [
  | inl passed ↦ inr (ground (arith, later_lem pieces))
  | inr kept ↦ elim (Bool-cases (bytes_eq piece dots)) [
    | inl parent ↦ absurd (ground arith)
    | inr fine ↦ ground (arith, later_lem pieces, entry_lem piece)
  ]
]

pieces_lem :
    (pieces : List (List ℕ))
    → all is_normal (components_from pieces) ≡ true
    → length (joined (components_from pieces)) + 1 ≡ width pieces
    → All IsEntry pieces
pieces_lem [] h k = tt
pieces_lem (piece ∷ pieces) h k = elim (Bool-cases (is_empty piece || bytes_eq piece dot)) [
  | inl special ↦ absurd (ground arith)
  | inr plain ↦ elim (Bool-cases (bytes_eq piece dots)) [
    | inl parent ↦ absurd (ground arith)
    | inr fine ↦ ground (
      arith,
      later_lem pieces,
      entry_lem piece,
      join_width_lem (components_from (piece ∷ pieces)) (λ e. cc),
    )
  ]
]

chars_lem :
    (s : List ℕ)
    → is_empty s ≡ false
    → all is_normal (components s) ≡ true
    → joined (components s) ≡ s
    → All IsEntry (split 47 s)
unfolding components
chars_lem [] h k l = cc
chars_lem (c ∷ s) h k l =
    pieces_lem (split 47 (c ∷ s)) (unfold split in k)
      (unfold split in omega (arith, ap length l, width-split (c ∷ s)))

join_lem : (cs : List Component) → all is_normal cs ≡ true → join cs ≡ some (joined cs)
unfolding join joined
join_lem [] h = refl
join_lem (normal piece ∷ []) h = refl
join_lem (normal piece ∷ c ∷ rest) h = ground (arith, join_lem (c ∷ rest))
join_lem (other ∷ rest) h = cc

-- The two checks of a name do not panic: the second one joins what the first one has accepted.
pub check_name_total : (relative : String) → check_name relative ≢ none
unfolding check_name validate_relative_path normalized_relative_path
check_name_total relative p =
    let s = chars relative in
    elim (Bool-cases (all is_normal (components s))) [
      | inl normals ↦ ground (arith, join_lem (components s) normals)
      | inr others ↦ ground arith
    ]

-- A name that the verifier takes from the checksum file is a path of entries: no piece between
-- separators is empty, `.` or `..`, so it is relative and stays in the bundle.
pub check_name_stays :
    (relative : String)
    → check_name relative ≡ some (ok tt)
    → All IsEntry (split 47 (chars relative))
unfolding check_name validate_relative_path normalized_relative_path
check_name_stays relative h =
    let s = chars relative in
    let normals : all is_normal (components s) ≡ true = ground arith in
    let whole = join_lem (components s) normals in
    chars_lem s (ground arith) normals (bytes_eq_lem (joined (components s)) s (ground arith))
