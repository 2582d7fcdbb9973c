-- ===== src/Evidence/Inventory.antt =====
-- The pass over SHA256SUMS in `verify_evidence_bundle_data` of
-- crates/benchplane-core/src/evidence.rs. A line is what `read_line` gives: an error, or the
-- number of its bytes, newline included, with the text. `sums_size` is the size of the file,
-- `payloads` the names that `gather_payload_paths` has found.
pub mod Sound
use Prim.Native.Char.{Char, code}
use benchplane.Base.{
  ℕ, ◌+◌, ◌-◌, min, String, Bool, true, false, not, ◌&&◌, ◌||◌, Option, none, some, List, [], ◌∷◌,
  length, all, ltb, leb, ◌==◌, str_eq, if◌then◌else◌, as_bytes, u64_mod, Result, ok, err, ok_or,
  fail_if,
}
use benchplane.Schema.Text.{is_blank}
use benchplane.Evidence.Outcome.{Outcome, ◌>>=◌, ◌>>◌}
use benchplane.Evidence.Error.{EvidenceError}
use benchplane.Evidence.Records.{Checked}
use benchplane.Evidence.Manifest.{is_hex_digest, retained_limit, contains}
use benchplane.Evidence.Entries.{get}
use benchplane.Evidence.Paths.{check_name}
use benchplane.Evidence.Files.{FileSystem, hash_regular_file}

abbrev pub max_checksum_file_bytes : ℕ
max_checksum_file_bytes = 4194304

abbrev pub max_checksum_line_bytes : ℕ
max_checksum_line_bytes = 4096

abbrev pub max_checksum_entries : ℕ
max_checksum_entries = 10000

-- `trim_end_matches(&['\r', '\n'])`
abbrev is_line_end : ℕ → Bool
is_line_end c = c == 13 || c == 10

abbrev is_empty_text : String → Bool
is_empty_text String.[] = true
is_empty_text (String.◌∷◌ c s) = false

unfoldable pub trim_line_end : String → String
trim_line_end String.[] = ""
trim_line_end (String.◌∷◌ c s) =
    let rest = trim_line_end s in
    if is_empty_text rest && is_line_end (code c) then "" else String.◌∷◌ c rest

abbrev onto_expected : Char → Option (String × String) → Option (String × String)
onto_expected c none = none
onto_expected c (some (expected, relative)) = some (String.◌∷◌ c expected, relative)

-- `split_once("  ")`
unfoldable pub split_entry : String → Option (String × String)
split_entry String.[] = none
split_entry (String.◌∷◌ c String.[]) = none
split_entry (String.◌∷◌ c (String.◌∷◌ d s)) =
    let rest = split_entry (String.◌∷◌ d s) in
    if code c == 32 && code d == 32 then some ("", s) else onto_expected c rest

-- The variables of the loop: the two sets and the two maps, the newest entry first.
pub record Inventory : Type 0 where
  pub names : List String
  pub targets : List String
  pub digests : List (String × String)
  pub records : List (String × List ℕ)
  pub total_bytes : ℕ  -- u64

abbrev pub empty_inventory : Inventory
empty_inventory = record { names = []; targets = []; digests = []; records = []; total_bytes = 0 }

-- `saturating_add`
abbrev pub saturating_add_u64 : ℕ → ℕ → ℕ
saturating_add_u64 a b = min (a + b) (u64_mod - 1)

abbrev pub retained_with :
    String → Option (List ℕ) → List (String × List ℕ) → List (String × List ℕ)
retained_with relative none records = records
retained_with relative (some bytes) records = (relative, bytes) ∷ records

module _ (fs : FileSystem) (sha256 : List ℕ → String) (payloads : List String) where
  -- what is done with a line that is not blank
  unfoldable pub check_entry : Inventory → String → Outcome Inventory
  unfolding split_entry
  check_entry inv line = do
    some (
        fail_if (leb max_checksum_entries (length inv.names))
          EvidenceError.too_many_checksum_entries)
    (expected, relative) ←
        some (ok_or (split_entry line) (EvidenceError.invalid_checksum_line line))
    some (
        fail_if (not (is_hex_digest (as_bytes expected))) (EvidenceError.invalid_checksum relative))
    check_name relative
    some (fail_if (contains inv.names relative) (EvidenceError.duplicate_path relative))
    some (
        fail_if (not (contains payloads relative))
          (EvidenceError.declared_payload_missing relative))
    (canonical, actual, bytes) ← hash_regular_file fs sha256 relative (retained_limit relative)
    some (fail_if (contains inv.targets canonical) (EvidenceError.duplicate_path relative))
    some (fail_if (not (str_eq actual expected)) (EvidenceError.checksum_mismatch relative))
    some (
        ok (record {
          names = relative ∷ inv.names;
          targets = canonical ∷ inv.targets;
          digests = (relative, actual) ∷ inv.digests;
          records = retained_with relative bytes inv.records;
          total_bytes = inv.total_bytes;
        }))

  -- one round of the loop
  unfoldable pub check_line : Inventory → ℕ × String → Outcome Inventory
  unfolding trim_line_end
  check_line inv (bytes_read, text) =
      let total = saturating_add_u64 inv.total_bytes bytes_read in
      let line = trim_line_end text in
      do
        some (fail_if (ltb max_checksum_file_bytes total) EvidenceError.checksum_file_too_large)
        some (fail_if (ltb max_checksum_line_bytes bytes_read) EvidenceError.checksum_line_too_long)
        (if is_blank line
            then some (ok (record inv { total_bytes = total }))
            else check_entry (record inv { total_bytes = total }) line)

  unfoldable pub check_lines :
      Inventory → List (Result (ℕ × String) EvidenceError) → Outcome Inventory
  check_lines inv [] = some (ok inv)
  check_lines inv (err e ∷ rest) = some (err e)
  check_lines inv (ok line ∷ rest) = check_line inv line >>= λ next. check_lines next rest

  -- `for relative in payloads.keys()`
  unfoldable pub require_listed : List String → List String → Checked
  require_listed names [] = ok tt
  require_listed names (relative ∷ rest) =
      if contains names relative
      then require_listed names rest
      else err (EvidenceError.missing_payload_checksum relative)

  -- the inventory and the bytes of the manifest
  unfoldable pub verify_inventory :
      ℕ → List (Result (ℕ × String) EvidenceError) → Outcome (Inventory × List ℕ)
  unfolding get
  verify_inventory sums_size lines = do
    some (fail_if (ltb max_checksum_file_bytes sums_size) EvidenceError.checksum_file_too_large)
    inv ← check_lines empty_inventory lines
    manifest_bytes ←
        some (ok_or (get inv.records "manifest.json") EvidenceError.missing_manifest_checksum)
    some (require_listed inv.names payloads)
    some (ok (inv, manifest_bytes))
