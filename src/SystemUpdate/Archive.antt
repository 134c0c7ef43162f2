-- ===== src/SystemUpdate/Archive.antt =====
-- The members of an archive in system_update.py (`_archive_members`), over what `zipfile` lists: the
-- fields of a `ZipInfo` that are read, and the content, which is missing where `read` raises.
use esp_iris.Common.{
  ℕ, ◌+◌, ◌*◌, ◌%◌, ◌==◌, ltb, not, ◌||◌, if◌then◌else◌, List, [], ◌∷◌, length, Option, Result, ok,
  err, ◌>>◌, ◌>>=◌, raise_if, or_raise, bytes_eq,
}
use esp_iris.Files.Paths.{ends_with_slash}
use esp_iris.SystemUpdate.Manifest.{
  LoadError, string, member, safe_member_name, member_count, duplicate_member, forbidden_member,
  compression, member_too_large, expands_too_large, unreadable_member,
}

pub record Entry : Type 0 where
  pub filename : List ℕ
  pub flag_bits : ℕ
  pub compress_type : ℕ
  pub file_size : ℕ
  pub content : Option (List ℕ)

abbrev pub max_bundle_bytes : ℕ
max_bundle_bytes = 32 * 1024 * 1024

abbrev pub max_component_bytes : ℕ
max_component_bytes = 16 * 1024 * 1024

-- One turn of the loop: the names so far, and the bytes of the members so far.
unfoldable pub check_entry : List (List ℕ) → ℕ → Entry → Result LoadError (Unit {0})
unfolding member safe_member_name
check_entry names total entry = do
  name ← safe_member_name (string entry.filename)
  raise_if (member name names) duplicate_member
  raise_if (ends_with_slash entry.filename || entry.flag_bits % 2 == 1) forbidden_member
  raise_if (not (entry.compress_type == 0 || entry.compress_type == 8)) compression
  raise_if (ltb max_component_bytes entry.file_size) member_too_large
  raise_if (ltb max_bundle_bytes (total + entry.file_size)) expands_too_large

unfoldable pub check_entries : List (List ℕ) → ℕ → List Entry → Result LoadError (Unit {0})
unfolding check_entry
check_entries names total [] = ok tt
check_entries names total (entry ∷ entries) =
    check_entry names total entry
    >> check_entries (entry.filename ∷ names) (total + entry.file_size) entries

unfoldable pub archive_members : List Entry → Result LoadError (List Entry)
unfolding check_entries
archive_members infos = do
  raise_if (length infos == 0 || ltb 16 (length infos)) member_count
  check_entries [] 0 infos
  ok infos

-- `name in members`, and `archive.read(members[name])`.
abbrev pub filenames_of : List Entry → List (List ℕ)
filenames_of [] = []
filenames_of (entry ∷ entries) = entry.filename ∷ filenames_of entries

unfoldable pub read_member : List ℕ → List Entry → Result LoadError (List ℕ)
read_member name [] = err unreadable_member
read_member name (entry ∷ entries) =
    let rest = read_member name entries in
    if bytes_eq entry.filename name then or_raise entry.content unreadable_member else rest
