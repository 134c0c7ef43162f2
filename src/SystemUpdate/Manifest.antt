-- ===== src/SystemUpdate/Manifest.antt =====
-- The checks of system_update.py on one value of a manifest. A text is the list of its characters'
-- numbers; an object keeps its pairs in order, as `json.loads` hands them to its hook.
use Prim.Native.String.{String}
use Prim.Native.Char.{code}
use esp_iris.Common.{
  ℕ, ◌+◌, ◌*◌, ◌==◌, ltb, leb, not, ◌&&◌, ◌||◌, Bool, true, false, if◌then◌else◌, List, [], ◌∷◌,
  ◌++◌, length, Option, none, some, Result, ok, err, ◌>>◌, raise_if, is_empty, bytes_eq, ℤ, pos,
  negsuc,
}
use esp_iris.Files.Paths.{any, starts_rooted, split_slash}
use esp_iris.Files.Writing.{digit_value}

abbrev pub text : String → List ℕ
text String.[] = []
text (String.◌∷◌ c s) = code c ∷ text s

mutual
  pub data Value : Type 0 where
    null : Value
    boolean : Bool → Value
    integer : ℤ → Value
    real : Value
    string : List ℕ → Value
    array : Items → Value
    object : Fields → Value

  pub data Items : Type 0 where
    no_entries : Items
    item : Value → Items → Items

  pub data Fields : Type 0 where
    no_pairs : Fields
    field : List ℕ → Value → Fields → Fields

-- One constructor for each message of `load_system_update_bundle` and of what it calls.
pub data LoadError : Type 0 where
  duplicate_field not_object missing_fields unknown_fields not_integer outside_bounds : LoadError
  not_sha256 not_hexadecimal not_canonical no_member_name not_root_level : LoadError
  archive_too_large archive_missing untrusted_key no_archive member_count duplicate_member
        forbidden_member compression member_too_large expands_too_large unreadable_member :
      LoadError
  no_manifest manifest_size signature_size key_required unsigned_rejected bad_signature : LoadError
  not_json unsupported_schema unbounded_text unsupported_algorithm bad_key_id unexpected_signature :
      LoadError
  bad_flash_size component_count component_id unhashable_kind unsupported_kind duplicate_kind
        outside_flash misaligned component_member size_mismatch digest_mismatch chip_mismatch :
      LoadError
  not_image wrong_chip no_descriptor no_names : LoadError
  undeclared_members overlap partition_size recovery_alone recovery_layout no_partition_table
        bootloader_range layout_mismatch :
      LoadError

-- `value.get(name)`, and the test `name in value`.
unfoldable pub get : List ℕ → Fields → Value
get name no_pairs = null
get name (field key value fields) = if bytes_eq key name then value else get name fields

unfoldable pub has : List ℕ → Fields → Bool
has name no_pairs = false
has name (field key value fields) = bytes_eq key name || has name fields

unfoldable pub member : List ℕ → List (List ℕ) → Bool
member name [] = false
member name (other ∷ names) = bytes_eq other name || member name names

-- `_strict_object`, on every object of a document, the inner ones first.
unfoldable pub has_duplicates : Fields → Bool
unfolding has
has_duplicates no_pairs = false
has_duplicates (field key value fields) = has key fields || has_duplicates fields

unfoldable mutual
  unfolding has_duplicates

  pub strict : Value → Result LoadError (Unit {0})
  strict (array items) = strict_items items
  strict (object fields) = strict_fields fields >> raise_if (has_duplicates fields) duplicate_field
  strict null = ok tt
  strict (boolean b) = ok tt
  strict (integer n) = ok tt
  strict real = ok tt
  strict (string s) = ok tt

  pub strict_items : Items → Result LoadError (Unit {0})
  strict_items no_entries = ok tt
  strict_items (item value items) = strict value >> strict_items items

  pub strict_fields : Fields → Result LoadError (Unit {0})
  strict_fields no_pairs = ok tt
  strict_fields (field key value fields) = strict value >> strict_fields fields

-- `_mapping`
abbrev pub mapping : Value → Result LoadError Fields
mapping (object fields) = ok fields
mapping _ = err not_object

-- `_require_fields`
unfoldable pub lacks_any : List (List ℕ) → Fields → Bool
unfolding has
lacks_any [] _ = false
lacks_any (name ∷ names) fields = not (has name fields) || lacks_any names fields

unfoldable pub goes_beyond : List (List ℕ) → Fields → Bool
unfolding member
goes_beyond names no_pairs = false
goes_beyond names (field key value fields) = not (member key names) || goes_beyond names fields

unfoldable pub require_fields : List (List ℕ) → List (List ℕ) → Fields → Result LoadError (Unit {0})
unfolding lacks_any goes_beyond
require_fields required optional fields = do
  raise_if (lacks_any required fields) missing_fields
  raise_if (goes_beyond (required ++ optional) fields) unknown_fields

-- `_bounded_uint`
unfoldable pub bounded_uint : ℕ → Value → Result LoadError ℕ
bounded_uint maximum (integer (pos n)) = raise_if (ltb maximum n) outside_bounds >> ok n
bounded_uint maximum (integer (negsuc n)) = err outside_bounds
bounded_uint maximum _ = err not_integer

-- `bytes.fromhex`: pairs of digits, and ASCII white space between the pairs.
abbrev pub is_ascii_space : ℕ → Bool
is_ascii_space c = c == 32 || (leb 9 c && leb c 13)

abbrev pub push_byte : Option ℕ → Option ℕ → Option (List ℕ) → Option (List ℕ)
push_byte (some high) (some low) (some bytes) = some ((16 * high + low) ∷ bytes)
push_byte _ _ _ = none

unfoldable pub from_hex : List ℕ → Option (List ℕ)
unfolding digit_value
from_hex [] = some []
from_hex (c ∷ []) = if is_ascii_space c then some [] else none
from_hex (c ∷ d ∷ rest) = elim (is_ascii_space c) [
  | true ↦ from_hex (d ∷ rest)
  | false ↦ push_byte (digit_value c) (digit_value d) (from_hex rest)
]

abbrev pub is_capital : ℕ → Bool
is_capital c = leb b'A' c && leb c b'Z'

-- `_sha256_hex`
abbrev pub canonical : List ℕ → Option (List ℕ) → Result LoadError (List ℕ)
canonical value none = err not_hexadecimal
canonical value (some raw) =
    raise_if (any is_capital value || not (length raw == 32)) not_canonical >> ok value

unfoldable pub sha256_hex : Value → Result LoadError (List ℕ)
unfolding from_hex
sha256_hex (string value) =
    raise_if (not (length value == 64)) not_sha256 >> canonical value (from_hex value)
sha256_hex _ = err not_sha256

-- `PurePosixPath(value).parts`, less the root.
unfoldable pub without_dots : List (List ℕ) → List (List ℕ)
without_dots [] = []
without_dots (part ∷ parts) =
    let rest = without_dots parts in
    if is_empty part || bytes_eq part (text ".") then rest else part ∷ rest

-- `_safe_member_name`
unfoldable pub safe_member_name : Value → Result LoadError (List ℕ)
unfolding split_slash without_dots member
safe_member_name (string value) = do
  raise_if (is_empty value || ltb 128 (length value)) no_member_name
  let parts = without_dots (split_slash value)
  raise_if (starts_rooted value || (member (text "..") parts || not (length parts == 1)))
      not_root_level
  ok value
safe_member_name _ = err no_member_name
