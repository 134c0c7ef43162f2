-- ===== src/SystemUpdate/Described.antt =====
-- What the entry of a component in a manifest says, of `describe` and `load_component`: its fields are
-- those of the component, and the digest in it is that of the component's bytes.
use esp_iris.Common.{
  ℕ, ◌+◌, ◌%◌, ◌==◌, ◌≤◌, ◌<◌, ltb, not, ◌&&◌, ◌||◌, ◌≡◌, ◌≢◌, subst, Bool, false, List, [], ◌∷◌,
  ok, raise_if, bind-ok, ok-injective, pos, arith,
}
use esp_iris.SystemUpdate.Manifest.{
  Value, object, string, integer, Fields, text, get, mapping, require_fields, bounded_uint,
  sha256_hex, safe_member_name, component_id, duplicate_kind, outside_flash, misaligned,
}
use esp_iris.SystemUpdate.Archive.{max_component_bytes}
use esp_iris.SystemUpdate.Components.{
  kind_named, contains, has_kind, Seen, Target, is_raw, alignment, flags_of, Described,
  component_fields, describe,
}

bounded_uint-ok :
    (maximum : ℕ) (value : Value) (n : ℕ)
    → bounded_uint maximum value ≡ ok n
    → value ≡ integer (pos n)
unfolding bounded_uint
bounded_uint-ok maximum value n h = ground (arith, h)

sha256_hex-ok : (value : Value) (s : List ℕ) → sha256_hex value ≡ ok s → value ≡ string s
unfolding sha256_hex
sha256_hex-ok value s h = ground (arith, h)

safe_member_name-ok :
    (value : Value) (s : List ℕ) → safe_member_name value ≡ ok s → value ≡ string s
unfolding safe_member_name
safe_member_name-ok value s h = ground (arith, h)

pub mapping-ok :
    (value : Value) (fields : Fields) → mapping value ≡ ok fields → value ≡ object fields
mapping-ok value fields h = ground (arith, h)

outside_lem :
    (size limit stop flash : ℕ)
    → raise_if (size == 0 || (ltb limit size || ltb flash stop)) outside_flash ≡ ok tt
    → (0 < size) × (size ≤ limit) × (stop ≤ flash)
outside_lem size limit stop flash h = ground (arith, h)

fresh_lem :
    (id : ℕ) (known : Bool)
    → raise_if (id == 0 || known) component_id ≡ ok tt
    → (id ≢ 0) × (known ≡ false)
fresh_lem id known h = ground (arith, h)

aligned_lem : (rest : ℕ) → raise_if (not (rest == 0)) misaligned ≡ ok tt → rest ≡ 0
aligned_lem rest h = ground (arith, h)

-- An entry of a manifest, and what is read from it.
pub record Says (value : Value) (identifier offset size : ℕ) (sha name : List ℕ) : Type 0 where
  pub fields : Fields
  pub is_object : value ≡ object fields
  pub says_id : get (text "id") fields ≡ integer (pos identifier)
  pub says_offset : get (text "target_offset") fields ≡ integer (pos offset)
  pub says_size : get (text "size") fields ≡ integer (pos size)
  pub says_digest : get (text "sha256") fields ≡ string sha
  pub says_file : get (text "file") fields ≡ string name

pub record Fits (flash_size : ℕ) (d : Described) : Type 0 where
  pub not_empty : 0 < d.size
  pub bounded : d.size ≤ max_component_bytes
  pub inside : d.target_offset + d.size ≤ flash_size
  pub aligned : d.target_offset % alignment d.kind ≡ 0

pub describe_lem :
    (target : Target) (seen : Seen) (value : Value) (d : Described)
    → describe target seen value ≡ ok d
    → Says value d.id d.target_offset d.size d.sha256_text d.filename
      × Fits target.flash_size d
      × (d.id ≢ 0)
      × (contains d.id seen.identifiers ≡ false)
unfolding describe
describe_lem target seen value d h =
    let (fields, e1, h1) = bind-ok (mapping value) _ h in
    let (u2, e2, h2) = bind-ok (require_fields component_fields (text "flags" ∷ []) fields) _ h1 in
    let (identifier, e3, h3) = bind-ok (bounded_uint 0xff (get (text "id") fields)) _ h2 in
    let (u4, e4, h4) =
      bind-ok (raise_if (identifier == 0 || contains identifier seen.identifiers) component_id) _
        h3 in
    let (kind, e5, h5) = bind-ok (kind_named (get (text "kind") fields)) _ h4 in
    let (u6, e6, h6) =
      bind-ok (raise_if (not (is_raw kind) && has_kind kind seen.singleton_kinds) duplicate_kind) _
        h5 in
    let (flags, e7, h7) = bind-ok (bounded_uint 0xffff (flags_of fields)) _ h6 in
    let (offset, e8, h8) =
      bind-ok (bounded_uint 0xffffffff (get (text "target_offset") fields)) _ h7 in
    let (size, e9, h9) = bind-ok (bounded_uint 0xffffffff (get (text "size") fields)) _ h8 in
    let (u10, e10, h10) =
      bind-ok
        (raise_if
          (size == 0 || (ltb max_component_bytes size || ltb target.flash_size (offset + size)))
          outside_flash)
        _ h9 in
    let (u11, e11, h11) =
      bind-ok (raise_if (not (offset % alignment kind == 0)) misaligned) _ h10 in
    let (sha, e12, h12) = bind-ok (sha256_hex (get (text "sha256") fields)) _ h11 in
    let (name, e13, h13) = bind-ok (safe_member_name (get (text "file") fields)) _ h12 in
    let (low, high, inside) =
      outside_lem size max_component_bytes (offset + size) target.flash_size e10 in
    let (nonzero, new) = fresh_lem identifier (contains identifier seen.identifiers) e4 in
    subst
      (λ (d : Described).
        Says value d.id d.target_offset d.size d.sha256_text d.filename
        × Fits target.flash_size d
        × (d.id ≢ 0)
        × (contains d.id seen.identifiers ≡ false))
      (ok-injective h13)
      (
        record {
          fields = fields;
          is_object = mapping-ok value fields e1;
          says_id = bounded_uint-ok 0xff (get (text "id") fields) identifier e3;
          says_offset = bounded_uint-ok 0xffffffff (get (text "target_offset") fields) offset e8;
          says_size = bounded_uint-ok 0xffffffff (get (text "size") fields) size e9;
          says_digest = sha256_hex-ok (get (text "sha256") fields) sha e12;
          says_file = safe_member_name-ok (get (text "file") fields) name e13;
        },
        record {
          not_empty = low;
          bounded = high;
          inside = inside;
          aligned = aligned_lem (offset % alignment kind) e11;
        },
        nonzero,
        new,
      )
