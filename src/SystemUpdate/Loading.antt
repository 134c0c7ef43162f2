-- ===== src/SystemUpdate/Loading.antt =====
-- `load_system_update_bundle` in system_update.py, over `zipfile`, `json.loads` of the decoded bytes,
-- `hashlib.sha256` and the public keys of `cryptography`. A file is its bytes, or missing. A text that
-- is no JSON counts as such before the duplicate names in it.
use esp_iris.Common.{
  ℕ, ◌+◌, ◌%◌, ◌==◌, ltb, not, ◌||◌, Bool, true, false, List, [], ◌∷◌, ◌++◌, length, Option, none,
  some, Result, ok, err, ◌>>◌, ◌>>=◌, raise_if, or_raise, is_empty, bytes_eq,
}
use esp_iris.SystemUpdate.Manifest.{
  Value, null, array, string, Items, no_entries, item, Fields, LoadError, text, get, member, strict,
  mapping, require_fields, bounded_uint, sha256_hex, archive_too_large, archive_missing,
  untrusted_key, no_archive, no_manifest, manifest_size, signature_size, key_required,
  unsigned_rejected, bad_signature, not_json, unsupported_schema, unbounded_text,
  unsupported_algorithm, bad_key_id, unexpected_signature, bad_flash_size, component_count,
  undeclared_members,
}
use esp_iris.SystemUpdate.Archive.{
  Entry, max_bundle_bytes, filenames_of, archive_members, read_member,
}
use esp_iris.SystemUpdate.Bundle.{Component, Bundle}
use esp_iris.SystemUpdate.Components.{Target, load_components}
use esp_iris.SystemUpdate.Layout.{check_layout}

pub data Source : Type 0 where
  raw : List ℕ → Source
  path : Option (List ℕ) → Source

unfoldable pub read_source : Source → Result LoadError (List ℕ)
read_source (raw bytes) =
    raise_if (ltb max_bundle_bytes (length bytes)) archive_too_large >> ok bytes
read_source (path none) = err archive_missing
read_source (path (some bytes)) =
    raise_if (ltb max_bundle_bytes (length bytes)) archive_missing >> ok bytes

abbrev pub manifest_name : List ℕ
manifest_name = text "manifest.json"

abbrev pub signature_name : List ℕ
signature_name = text "manifest.sig"

-- A text of one to sixty-four characters; the optional ones may be missing.
abbrev pub is_bounded : Value → Bool
is_bounded (string s) = not (length s == 0 || ltb 64 (length s))
is_bounded _ = false

abbrev pub is_null : Value → Bool
is_null null = true
is_null _ = false

abbrev pub is_text : List ℕ → Value → Bool
is_text expected (string s) = bytes_eq s expected
is_text expected _ = false

abbrev pub text_of : Value → List ℕ
text_of (string s) = s
text_of _ = []

-- `signature` of the manifest: the identifier of the key.
unfoldable pub key_of : Bool → Value → Result LoadError (Option (List ℕ))
unfolding get require_fields
key_of false value = raise_if (not (is_null value)) unexpected_signature >> ok none
key_of true value = do
  fields ← mapping value
  require_fields (text "algorithm" ∷ text "key_id" ∷ []) [] fields
  raise_if (not (is_text (text "ecdsa-p256-sha256") (get (text "algorithm") fields)))
      unsupported_algorithm
  raise_if (not (is_bounded (get (text "key_id") fields))) bad_key_id
  ok (some (text_of (get (text "key_id") fields)))

unfoldable pub read_target : Value → Result LoadError Target
unfolding get require_fields bounded_uint
read_target value = do
  fields ← mapping value
  require_fields (text "chip_id" ∷ text "flash_size" ∷ []) [] fields
  chip_id ← bounded_uint 0xffff (get (text "chip_id") fields)
  flash_size ← bounded_uint 0xffffffff (get (text "flash_size") fields)
  raise_if (flash_size == 0 || not (flash_size % 4096 == 0)) bad_flash_size
  ok (record { chip_id = chip_id; flash_size = flash_size })

abbrev pub count_items : Items → ℕ
count_items no_entries = 0
count_items (item value items) = 1 + count_items items

unfoldable pub component_values : Value → Result LoadError Items
component_values (array items) =
    raise_if (count_items items == 0 || ltb 8 (count_items items)) component_count >> ok items
component_values _ = err component_count

unfoldable pub check_header : Fields → Result LoadError (Unit {0})
unfolding get require_fields
check_header fields = do
  raise_if (not (is_text (text "esp-iris-system-update/v1") (get (text "schema") fields)))
      unsupported_schema
  require_fields
      (text "schema" ∷ text "target" ∷ text "target_layout_sha256" ∷ text "components" ∷ [])
      (text "release" ∷ text "minimum_recovery_version" ∷ text "signature" ∷ []) fields
  let release = get (text "release") fields
  let minimum = get (text "minimum_recovery_version") fields
  raise_if (not (is_null release || is_bounded release)) unbounded_text
  raise_if (not (is_null minimum || is_bounded minimum)) unbounded_text

-- The names that a bundle accounts for.
abbrev pub reserved : Bool → List (List ℕ)
reserved true = signature_name ∷ manifest_name ∷ []
reserved false = manifest_name ∷ []

abbrev pub component_files : List Component → List (List ℕ)
component_files [] = []
component_files (c ∷ components) = c.filename ∷ component_files components

unfoldable pub has_unused : List (List ℕ) → List (List ℕ) → Bool
unfolding member
has_unused used [] = false
has_unused used (name ∷ names) = not (member name used) || has_unused used names

-- `archive.read(members[SIGNATURE_NAME])`, if it is there.
unfoldable pub read_signature : List Entry → Result LoadError (List ℕ)
unfolding member read_member
read_signature entries = elim (member signature_name (filenames_of entries)) [
  | true ↦ read_member signature_name entries
  | false ↦ ok []
]

-- `_load_public_key` of the key that is trusted, if there is one.
module _ {Key : Type 0} (load_key : List ℕ → Option Key) where
  unfoldable pub trusted : Option (List ℕ) → Result LoadError (Option Key)
  trusted none = ok none
  trusted (some pem) = or_raise (load_key pem) untrusted_key >>= λ key. ok (some key)

module _ {Key : Type 0} (verify : Key → List ℕ → List ℕ → Bool) where
  unfoldable pub check_signature : Option Key → List ℕ → List ℕ → Result LoadError (Unit {0})
  check_signature none [] manifest = ok tt
  check_signature none (b ∷ signature) manifest = err key_required
  check_signature (some key) [] manifest = err unsigned_rejected
  check_signature (some key) (b ∷ signature) manifest =
      raise_if (not (verify key (b ∷ signature) manifest)) bad_signature

-- From the parsed manifest on.
module _ (sha256 : List ℕ → List ℕ) where
  unfoldable pub load_manifest : List Entry → List ℕ → List ℕ → Fields → Result LoadError Bundle
  unfolding check_header get key_of read_target sha256_hex component_values load_components
      has_unused check_layout
  load_manifest entries manifest_bytes signature fields = do
    check_header fields
    let signed = not (is_empty signature)
    key_id ← key_of signed (get (text "signature") fields)
    target ← read_target (get (text "target") fields)
    layout ← sha256_hex (get (text "target_layout_sha256") fields)
    values ← component_values (get (text "components") fields)
    components ←
        load_components sha256 target entries
          (record { identifiers = []; singleton_kinds = []; filenames = reserved signed }) values
    raise_if (has_unused (reserved signed ++ component_files components) (filenames_of entries))
        undeclared_members
    check_layout layout components
    ok (record {
      manifest = fields;
      manifest_bytes = manifest_bytes;
      signature = signature;
      manifest_sha256 = sha256 manifest_bytes;
      key_id = key_id;
      signature_verified = signed;
      chip_id = target.chip_id;
      flash_size = target.flash_size;
      target_layout_sha256 = layout;
      components = components;
    })

-- The members that are read, and the signature over the manifest.
module _ {Key : Type 0} (verify : Key → List ℕ → List ℕ → Bool) (parse : List ℕ → Option Value)
    (sha256 : List ℕ → List ℕ) where
  unfoldable pub load_archive : Option Key → List Entry → Result LoadError Bundle
  unfolding member read_member read_signature check_signature strict load_manifest
  load_archive key entries = do
    raise_if (not (member manifest_name (filenames_of entries))) no_manifest
    manifest_bytes ← read_member manifest_name entries
    signature ← read_signature entries
    raise_if (length manifest_bytes == 0 || ltb 2048 (length manifest_bytes)) manifest_size
    raise_if (ltb 256 (length signature)) signature_size
    check_signature verify key signature manifest_bytes
    document ← or_raise (parse manifest_bytes) not_json
    strict document
    fields ← mapping document
    load_manifest sha256 entries manifest_bytes signature fields

module _ {Key : Type 0} (load_key : List ℕ → Option Key) (verify : Key → List ℕ → List ℕ → Bool)
    (open_archive : List ℕ → Option (List Entry)) (parse : List ℕ → Option Value)
    (sha256 : List ℕ → List ℕ) where
  unfoldable pub load_bundle : Option (List ℕ) → Source → Result LoadError Bundle
  unfolding read_source trusted archive_members load_archive
  load_bundle trusted_public_key source = do
    bytes ← read_source source
    key ← trusted load_key trusted_public_key
    infos ← or_raise (open_archive bytes) no_archive
    entries ← archive_members infos
    load_archive verify parse sha256 key entries
