-- ===== src/SystemUpdate/Components.antt =====
-- The loop of `load_system_update_bundle` in system_update.py over the components of a manifest.
use esp_iris.Common.{
  ℕ, ◌+◌, ◌%◌, ◌==◌, ltb, not, ◌&&◌, ◌||◌, Bool, true, false, if◌then◌else◌, List, [], ◌∷◌, length,
  Result, ok, err, ◌>>◌, ◌>>=◌, raise_if, pos, bytes_eq,
}
use esp_iris.Session.Probes.{hex}
use esp_iris.SystemUpdate.Manifest.{
  Value, array, object, string, integer, Items, no_entries, item, Fields, LoadError, text, get, has,
  member, mapping, require_fields, bounded_uint, sha256_hex, safe_member_name, component_id,
  unhashable_kind, unsupported_kind, duplicate_kind, outside_flash, misaligned, component_member,
  size_mismatch, digest_mismatch, chip_mismatch,
}
use esp_iris.SystemUpdate.Firmware.{inspect_firmware_image}
use esp_iris.SystemUpdate.Archive.{Entry, max_component_bytes, filenames_of, read_member}
use esp_iris.SystemUpdate.Bundle.{
  ComponentKind, bootloader, partition_table, application, recovery, raw_data, kind_code, Component,
}

-- `_KIND_NAMES`; an array or an object cannot be looked up.
unfoldable pub kind_named : Value → Result LoadError ComponentKind
kind_named (string name) =
    if bytes_eq name (text "bootloader")
    then ok bootloader
    else if bytes_eq name (text "partition_table")
    then ok partition_table
    else if bytes_eq name (text "application")
    then ok application
    else if bytes_eq name (text "recovery")
    then ok recovery
    else if bytes_eq name (text "data")
    then ok raw_data
    else err unsupported_kind
kind_named (array _) = err unhashable_kind
kind_named (object _) = err unhashable_kind
kind_named _ = err unsupported_kind

abbrev pub same_kind : ComponentKind → ComponentKind → Bool
same_kind a b = kind_code a == kind_code b

unfoldable pub contains : ℕ → List ℕ → Bool
contains x [] = false
contains x (y ∷ ys) = y == x || contains x ys

unfoldable pub has_kind : ComponentKind → List ComponentKind → Bool
has_kind kind [] = false
has_kind kind (other ∷ kinds) = same_kind other kind || has_kind kind kinds

-- The sets that the loop fills, and the target that it reads.
pub record Seen : Type 0 where
  pub identifiers : List ℕ
  pub singleton_kinds : List ComponentKind
  pub filenames : List (List ℕ)

pub record Target : Type 0 where
  pub chip_id : ℕ
  pub flash_size : ℕ

abbrev pub is_raw : ComponentKind → Bool
is_raw raw_data = true
is_raw _ = false

abbrev pub carries_image : ComponentKind → Bool
carries_image application = true
carries_image recovery = true
carries_image _ = false

abbrev pub alignment : ComponentKind → ℕ
alignment application = 0x10000
alignment _ = 0x1000

unfoldable pub note : Component → Seen → Seen
note c seen = record {
  identifiers = c.id ∷ seen.identifiers;
  singleton_kinds = if is_raw c.kind then seen.singleton_kinds else c.kind ∷ seen.singleton_kinds;
  filenames = c.filename ∷ seen.filenames;
}

-- `item.get("flags", 0)`
abbrev pub flags_of : Fields → Value
unfolding has get
flags_of fields = if has (text "flags") fields then get (text "flags") fields else integer (pos 0)

-- What the entry of a component says, its bytes aside.
pub record Described : Type 0 where
  pub id : ℕ
  pub kind : ComponentKind
  pub flags : ℕ
  pub target_offset : ℕ
  pub size : ℕ
  pub sha256_text : List ℕ
  pub filename : List ℕ

abbrev pub component_fields : List (List ℕ)
component_fields =
    text "id" ∷ text "kind" ∷ text "target_offset" ∷ text "size" ∷ text "sha256" ∷ text "file" ∷ []

unfoldable pub describe : Target → Seen → Value → Result LoadError Described
unfolding get require_fields bounded_uint kind_named has_kind contains sha256_hex safe_member_name
describe target seen value = do
  fields ← mapping value
  require_fields component_fields (text "flags" ∷ []) fields
  identifier ← bounded_uint 0xff (get (text "id") fields)
  raise_if (identifier == 0 || contains identifier seen.identifiers) component_id
  kind ← kind_named (get (text "kind") fields)
  raise_if (not (is_raw kind) && has_kind kind seen.singleton_kinds) duplicate_kind
  flags ← bounded_uint 0xffff (flags_of fields)
  offset ← bounded_uint 0xffffffff (get (text "target_offset") fields)
  size ← bounded_uint 0xffffffff (get (text "size") fields)
  raise_if (size == 0 || (ltb max_component_bytes size || ltb target.flash_size (offset + size)))
      outside_flash
  raise_if (not (offset % alignment kind == 0)) misaligned
  sha ← sha256_hex (get (text "sha256") fields)
  name ← safe_member_name (get (text "file") fields)
  ok (record {
    id = identifier;
    kind = kind;
    flags = flags;
    target_offset = offset;
    size = size;
    sha256_text = sha;
    filename = name;
  })

-- The bytes of a component, over `hashlib.sha256`.
module _ (sha256 : List ℕ → List ℕ) where
  unfoldable pub check_image : ℕ → ComponentKind → List ℕ → Result LoadError (Unit {0})
  unfolding inspect_firmware_image
  check_image chip_id kind bytes = elim (carries_image kind) [
    | false ↦ ok tt
    | true ↦ inspect_firmware_image sha256 bytes >>= λ firmware.
        raise_if (not (firmware.chip_id == chip_id)) chip_mismatch
  ]

  unfoldable pub load_component : Target → List Entry → Seen → Value → Result LoadError Component
  unfolding describe read_member check_image
  load_component target entries seen value = do
    described ← describe target seen value
    raise_if
        (member described.filename seen.filenames
          || not (member described.filename (filenames_of entries)))
        component_member
    bytes ← read_member described.filename entries
    raise_if (not (length bytes == described.size)) size_mismatch
    raise_if (not (bytes_eq (hex (sha256 bytes)) described.sha256_text)) digest_mismatch
    check_image target.chip_id described.kind bytes
    ok (record {
      id = described.id;
      kind = described.kind;
      flags = described.flags;
      target_offset = described.target_offset;
      size = described.size;
      sha256 = sha256 bytes;
      filename = described.filename;
      bytes = bytes;
    })

  unfoldable pub load_components :
      Target → List Entry → Seen → Items → Result LoadError (List Component)
  unfolding load_component note
  load_components target entries seen no_entries = ok []
  load_components target entries seen (item value items) = do
    c ← load_component target entries seen value
    components ← load_components target entries (note c seen) items
    ok (c ∷ components)
