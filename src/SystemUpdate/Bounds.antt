-- ===== src/SystemUpdate/Bounds.antt =====
-- What `archive_members` lets through: a bounded archive of files with different names.
use esp_iris.Common.{ℕ, ◌+◌, ◌%◌, ◌≤◌, ◌≡◌, ◌⊎◌, false, List, [], ◌∷◌, ok}
use esp_iris.Files.Paths.{ends_with_slash}
use esp_iris.SystemUpdate.Manifest.{string, member, safe_member_name}
use esp_iris.SystemUpdate.Archive.{Entry, max_component_bytes}

abbrev pub total_bytes : List Entry → ℕ
total_bytes [] = 0
total_bytes (entry ∷ entries) = entry.file_size + total_bytes entries

-- A file at the root of the archive, stored or deflated, and not encrypted.
pub record IsAllowed (entry : Entry) : Type 0 where
  pub named : safe_member_name (string entry.filename) ≡ ok entry.filename
  pub no_directory : ends_with_slash entry.filename ≡ false
  pub not_encrypted : entry.flag_bits % 2 ≡ 0
  pub compressed : (entry.compress_type ≡ 0) ⊎ (entry.compress_type ≡ 8)
  pub bounded : entry.file_size ≤ max_component_bytes

-- No name is among those of a list, or twice in it.
abbrev pub AreNew : List (List ℕ) → List Entry → Type 0
AreNew names [] = Unit
AreNew names (entry ∷ entries) =
    (member entry.filename names ≡ false) × AreNew (entry.filename ∷ names) entries
