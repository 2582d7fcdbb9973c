-- ===== src/Evidence/Files.antt =====
-- `checked_regular_path` and `hash_regular_file` of crates/benchplane-core/src/evidence.rs. What the
-- operating system answers about the files below a bundle's root is a `FileSystem`; the hexadecimal
-- SHA-256 digest of the bytes that the hasher was given is a parameter.
use benchplane.Base.{
  arith, true, false, ◌≢◌, Result-cases, Bool-cases, inl, inr, ℕ, ◌+◌, String, Bool, not, Option,
  none, some, List, [], ◌∷◌, ◌++◌, length, ltb, str_eq, if◌then◌else◌, Result, ok, err, fail_if,
  format,
}
use benchplane.Evidence.Outcome.{Outcome, ◌>>=◌, ◌>>◌, gives, fails, panics, Outcome-cases}
use benchplane.Evidence.Error.{EvidenceError}

-- A path is the name below the root, a canonical path a text; a read gives at most a buffer, and an
-- empty one at the end.
pub record FileSystem : Type 0 where
  -- whether `symlink_metadata` shows a regular file
  pub is_file : String → Result Bool String
  pub canonicalize : String → Result String String
  -- whether a canonical path starts with the root
  pub starts_with_root : String → Bool
  pub size : String → Result ℕ String
  pub open_file : String → Result (List (Result (List ℕ) String)) String

-- `map_err` to `EvidenceError::Read`
abbrev pub reading {ℓ} : {A : Type ℓ} → String → Result A String → Result A EvidenceError
reading path (ok a) = ok a
reading path (err source) = err (EvidenceError.read path source)

abbrev pub too_large : String → EvidenceError
too_large display =
    if str_eq display "manifest.json"
    then EvidenceError.manifest_too_large
    else EvidenceError.inconsistent_record (format (display ∷ " exceeds its parsing limit" ∷ []))

abbrev within_limit : String → Option ℕ → ℕ → Result (Unit {0}) EvidenceError
within_limit display none size = ok tt
within_limit display (some limit) size = fail_if (ltb limit size) (too_large display)

-- `bytes.extend_from_slice`, where bytes are retained; `none` is the `expect` on the limit
abbrev retain : String → Option ℕ → Option (List ℕ) → List ℕ → Outcome (Option (List ℕ))
retain display limit none chunk = some (ok none)
retain display none (some bytes) chunk = none
retain display (some limit) (some bytes) chunk =
    some (elim (ltb limit (length bytes + length chunk)) [
      | true ↦ err (too_large display)
      | false ↦ ok (some (bytes ++ chunk))
    ])

-- the loop over the reads: the bytes given to the hasher, and those that are retained
unfoldable pub hash_chunks :
    String
    → String
    → Option ℕ
    → List ℕ
    → Option (List ℕ)
    → List (Result (List ℕ) String)
    → Outcome (List ℕ × Option (List ℕ))
hash_chunks path display limit hashed retained [] = some (ok (hashed, retained))
hash_chunks path display limit hashed retained (err source ∷ rest) =
    some (err (EvidenceError.read path source))
hash_chunks path display limit hashed retained (ok [] ∷ rest) = some (ok (hashed, retained))
hash_chunks path display limit hashed retained (ok (b ∷ chunk) ∷ rest) =
    elim (retain display limit retained (b ∷ chunk)) [
      | none ↦ none
      | some (ok bytes) ↦ hash_chunks path display limit (hashed ++ b ∷ chunk) bytes rest
      | some (err e) ↦ some (err e)
    ]

-- `Vec::with_capacity`, where there is a limit
abbrev empty_where_limited : Option ℕ → Option (List ℕ)
empty_where_limited none = none
empty_where_limited (some limit) = some []

module _ (fs : FileSystem) (sha256 : List ℕ → String) where
  unfoldable pub checked_regular_path : String → String → Outcome String
  checked_regular_path path display = do
    regular ← some (reading path (fs.is_file path))
    some (fail_if (not regular) (EvidenceError.non_regular_file display))
    canonical ← some (reading path (fs.canonicalize path))
    some (fail_if (not (fs.starts_with_root canonical)) (EvidenceError.path_escape display))
    some (ok canonical)

  -- the canonical path, the digest, and the bytes where there is a limit
  unfoldable pub hash_regular_file : String → Option ℕ → Outcome (String × String × Option (List ℕ))
  unfolding checked_regular_path hash_chunks
  hash_regular_file relative limit = do
    canonical ← checked_regular_path relative relative
    size ← some (reading canonical (fs.size canonical))
    some (within_limit relative limit size)
    chunks ← some (reading canonical (fs.open_file canonical))
    (hashed, retained) ← hash_chunks canonical relative limit [] (empty_where_limited limit) chunks
    some (ok (canonical, sha256 hashed, retained))

-- bytes are retained exactly where there is a limit
abbrev InStep : Option ℕ → Option (List ℕ) → Type 0
InStep none none = Unit
InStep (some limit) (some bytes) = Unit
InStep none (some bytes) = ⊥
InStep (some limit) none = ⊥

hash_chunks_total :
    (path display : String) (limit : Option ℕ) (hashed : List ℕ) (retained : Option (List ℕ))
    (chunks : List (Result (List ℕ) String))
    → InStep limit retained
    → hash_chunks path display limit hashed retained chunks ≢ none
unfolding hash_chunks
hash_chunks_total path display limit hashed retained [] h p = ground arith
hash_chunks_total path display limit hashed retained (err source ∷ rest) h p = ground arith
hash_chunks_total path display limit hashed retained (ok [] ∷ rest) h p = ground arith
hash_chunks_total path display none hashed (some bytes) (ok (b ∷ chunk) ∷ rest) h p = h
hash_chunks_total path display (some limit) hashed none (ok (b ∷ chunk) ∷ rest) h p = h
hash_chunks_total path display none hashed none (ok (b ∷ chunk) ∷ rest) h p =
    hash_chunks_total path display none (hashed ++ b ∷ chunk) none rest tt p
hash_chunks_total path display (some limit) hashed (some bytes) (ok (b ∷ chunk) ∷ rest) h p =
    elim (Bool-cases (ltb limit (length bytes + length (b ∷ chunk)))) [
      | inl large ↦ ground arith
      | inr small ↦
          hash_chunks_total path display (some limit) (hashed ++ b ∷ chunk)
            (some (bytes ++ b ∷ chunk)) rest tt (ground arith)
    ]

empty-InStep : (limit : Option ℕ) → InStep limit (empty_where_limited limit)
empty-InStep none = tt
empty-InStep (some limit) = tt

checked_regular_path_total :
    (fs : FileSystem) (sha256 : List ℕ → String) (path display : String)
    → checked_regular_path fs sha256 path display ≢ none
unfolding checked_regular_path
checked_regular_path_total fs sha256 path display p =
    elim (Result-cases (reading path (fs.is_file path))) [
      | inr (e, q) ↦ ground arith
      | inl (regular, q) ↦ elim (Result-cases (reading path (fs.canonicalize path))) [
        | inr (e, r) ↦ ground arith
        | inl (canonical, r) ↦ ground arith
      ]
    ]

-- Whatever the operating system answers, hashing a file does not panic.
pub hash_regular_file_total :
    (fs : FileSystem) (sha256 : List ℕ → String) (relative : String) (limit : Option ℕ)
    → hash_regular_file fs sha256 relative limit ≢ none
unfolding hash_regular_file
hash_regular_file_total fs sha256 relative limit p =
    elim (Outcome-cases (checked_regular_path fs sha256 relative relative)) [
      | panics q ↦ checked_regular_path_total fs sha256 relative relative q
      | fails e q ↦ ground arith
      | gives canonical q ↦ elim (Result-cases (reading canonical (fs.size canonical))) [
        | inr (e, r) ↦ ground arith
        | inl (size, r) ↦ elim (Result-cases (within_limit relative limit size)) [
          | inr (e, t) ↦ ground arith
          | inl (u, t) ↦ elim (Result-cases (reading canonical (fs.open_file canonical))) [
            | inr (e, v) ↦ ground arith
            | inl (chunks, v) ↦ ground (
              arith,
              hash_chunks_total canonical relative limit [] (empty_where_limited limit) chunks
                  (empty-InStep limit),
            )
          ]
        ]
      ]
    ]
