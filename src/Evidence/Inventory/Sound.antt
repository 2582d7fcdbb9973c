-- ===== src/Evidence/Inventory/Sound.antt =====
-- What an accepted SHA256SUMS guarantees, by an invariant of the loop in
-- `verify_evidence_bundle_data` of crates/benchplane-core/src/evidence.rs.
use benchplane.Base.{
  ◌≢◌, none, some, Result, err, ℕ, ◌≤◌, ◌≡◌, String, true, false, Option, List, [], ◌∷◌, map,
  length, All, as_bytes, ok, arith, Option-cases, Bool-cases, inl, inr,
}
use benchplane.Schema.Text.{chars, is_blank}
use benchplane.Provenance.{split}
use benchplane.Evidence.Outcome.{gives, fails, panics, Outcome-cases}
use benchplane.Evidence.Error.{EvidenceError}
use benchplane.Evidence.Manifest.{is_hex_digest, retained_limit, contains}
use benchplane.Evidence.Entries.{get}
use benchplane.Evidence.Paths.{check_name_total, IsEntry, check_name}
use benchplane.Evidence.Files.{hash_regular_file_total, FileSystem, hash_regular_file}
use benchplane.Evidence.Inventory.{
  Inventory, empty_inventory, max_checksum_entries, saturating_add_u64, trim_line_end, split_entry,
  check_entry, check_line, check_lines, verify_inventory,
}

-- no text stands in a list twice
abbrev pub Distinct : List String → Type 0
Distinct [] = Unit
Distinct (name ∷ names) = (contains names name ≡ false) × Distinct names

module _ (fs : FileSystem) (sha256 : List ℕ → String) (payloads : List String) where
  -- the file of a name has this digest, and the name stays in the bundle
  abbrev pub IsChecked : String × String → Type 0
  IsChecked (name, digest) =
      (contains payloads name ≡ true)
      × (is_hex_digest (as_bytes digest) ≡ true)
      × All IsEntry (split 47 (chars name))

  -- each name has the file at the canonical path in the same place, with the name's digest
  abbrev pub HaveFiles : List (String × String) → List String → Type 0
  HaveFiles [] [] = Unit
  HaveFiles ((name, digest) ∷ entries) (target ∷ targets) =
      ((bytes : Option (List ℕ)) × (hash_regular_file fs sha256 name (retained_limit name)
          ≡ some (ok (target, digest, bytes))))
      × HaveFiles entries targets
  HaveFiles [] (target ∷ targets) = ⊥
  HaveFiles (entry ∷ entries) [] = ⊥

  -- the bytes kept of a file are those that it has
  abbrev pub IsKept : String × List ℕ → Type 0
  IsKept (name, bytes) =
      (canonical : String) × (digest : String) × (hash_regular_file fs sha256 name
          (retained_limit name)
        ≡ some (ok (canonical, digest, some bytes)))

  pub record IsInventory (inv : Inventory) : Type 0 where
    pub checked : All IsChecked inv.digests
    pub names : inv.names ≡ map (λ e. e.0) inv.digests
    pub distinct : Distinct inv.names
    pub targets : Distinct inv.targets
    pub files : HaveFiles inv.digests inv.targets
    pub kept : All IsKept inv.records
    pub bounded : length inv.names ≤ max_checksum_entries

  check_entry_total :
      (inv : Inventory) (line : String) → check_entry fs sha256 payloads inv line ≢ none
  unfolding check_entry
  check_entry_total inv line p = elim (Option-cases (split_entry line)) [
    | inl unsplit ↦ ground arith
    | inr ((expected, relative), parts) ↦ elim (Outcome-cases (check_name relative)) [
      | panics q ↦ check_name_total relative q
      | fails x unsafe ↦ ground arith
      | gives u safe ↦
          elim (Outcome-cases (hash_regular_file fs sha256 relative (retained_limit relative))) [
            | panics q ↦ hash_regular_file_total fs sha256 relative (retained_limit relative) q
            | fails x unread ↦ ground arith
            | gives (canonical, actual, bytes) hashed ↦ ground arith
          ]
    ]
  ]

  check_lines_total :
      (inv : Inventory) (lines : List (Result (ℕ × String) EvidenceError))
      → check_lines fs sha256 payloads inv lines ≢ none
  unfolding check_lines check_line
  check_lines_total inv [] p = ground arith
  check_lines_total inv (err e ∷ rest) p = ground arith
  check_lines_total inv (ok (bytes_read, text) ∷ rest) p =
      let counted : Inventory = record inv {
        total_bytes = saturating_add_u64 inv.total_bytes bytes_read;
      } in
      elim (Outcome-cases (check_line fs sha256 payloads inv (bytes_read, text))) [
        | panics q ↦ elim (Bool-cases (is_blank (trim_line_end text))) [
          | inl blank ↦ ground arith
          | inr filled ↦ ground (arith, check_entry_total counted (trim_line_end text))
        ]
        | fails e q ↦ ground arith
        | gives next q ↦ check_lines_total next rest (ground arith)
      ]

  -- Whatever the operating system answers and whoever wrote the file: the pass over it does not
  -- panic.
  pub verify_inventory_total :
      (sums_size : ℕ) (lines : List (Result (ℕ × String) EvidenceError))
      → verify_inventory fs sha256 payloads sums_size lines ≢ none
  unfolding verify_inventory
  verify_inventory_total sums_size lines p =
      elim (Outcome-cases (check_lines fs sha256 payloads empty_inventory lines)) [
        | panics q ↦ check_lines_total empty_inventory lines q
        | fails x stopped ↦ ground arith
        | gives final done ↦ elim (Option-cases (get final.records "manifest.json")) [
          | inl missing ↦ ground arith
          | inr (bytes, found) ↦ ground arith
        ]
      ]
