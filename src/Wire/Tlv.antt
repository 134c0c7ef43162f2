-- ===== src/Wire/Tlv.antt =====
-- Tag-length-value payloads of protocol.py: `encode_tlv`, `decode_tlv` and the typed readers.
pub mod Exact
pub mod Readers
mod Tests
use esp_iris.Common.{
  ℕ, zero, suc, ◌+◌, ◌^◌, ◌≤◌, ◌<◌, ◌==◌, ltb, if◌then◌else◌, List, [], ◌∷◌, ◌++◌, length, take,
  drop, Option, none, some, ok, err, ◌>>=◌, ◌>>◌, raise_if, ℤ, pos, negsuc, to_le, from_le, uint_at,
  lookup, insert, nat_eq,
}
use esp_iris.Wire.Error.{
  Wire, tlv_too_large, truncated_tlv_header, truncated_tlv_value, struct_error, out_of_fuel,
}

-- A dictionary from tags to values.
abbrev pub Fields : Type 0
Fields = List (ℕ × List ℕ)

-- `struct.pack("<BH", int(tag), len(value))`, for a length that was checked already.
pack_tlv_header : ℤ → ℕ → Wire (List ℕ)
pack_tlv_header (pos tag) size =
    if ltb tag 256 then ok (to_le 1 tag ++ to_le 2 size) else err struct_error
pack_tlv_header (negsuc tag) size = err struct_error

encode_tlv_item : ℤ × List ℕ → Wire (List ℕ)
unfolding pack_tlv_header
encode_tlv_item (tag, value) = do
  raise_if (ltb 0xffff (length value)) tlv_too_large
  header ← pack_tlv_header tag (length value)
  ok (header ++ value)

encode_tlv_loop : List ℕ → List (ℤ × List ℕ) → Wire (List ℕ)
encode_tlv_loop output [] = ok output
encode_tlv_loop output (item ∷ items) =
    encode_tlv_item item >>= λ bytes. encode_tlv_loop (output ++ bytes) items

pub encode_tlv : List (ℤ × List ℕ) → Wire (List ℕ)
unfolding encode_tlv_loop
encode_tlv items = encode_tlv_loop [] items

-- The `while` loop: `rest` is `payload[offset:]`. A round takes three bytes at least, so the length
-- of the payload is fuel enough. A later value of a tag replaces an earlier one.
decode_tlv_loop : ℕ → List ℕ → Fields → Wire Fields
decode_tlv_loop fuel [] result = ok result
decode_tlv_loop zero (b ∷ rest) result = err out_of_fuel
decode_tlv_loop (suc fuel) (b ∷ rest) result =
    let size = uint_at 2 1 (b ∷ rest) in
    let body = drop 3 (b ∷ rest) in
    let next =
      decode_tlv_loop fuel (drop size body)
        (insert (uint_at 1 0 (b ∷ rest)) (take size body) result) in
    if ltb (length (b ∷ rest)) 3
    then err truncated_tlv_header
    else if ltb (length body) size
    then err truncated_tlv_value
    else next

pub decode_tlv : List ℕ → Wire Fields
unfolding decode_tlv_loop
decode_tlv payload = decode_tlv_loop (length payload) payload []

-- The readers: `fields.get(tag)` if it has the size of the type, and the default otherwise.
unfoldable pub sized_uint : ℕ → Option (List ℕ) → ℕ → ℕ
sized_uint size none default = default
sized_uint size (some value) default = if length value == size then from_le value else default

unfoldable pub tlv_u8 : Fields → ℕ → ℕ → ℕ
unfolding sized_uint
tlv_u8 fields tag default = sized_uint 1 (lookup tag fields) default

unfoldable pub tlv_u16 : Fields → ℕ → ℕ → ℕ
unfolding sized_uint
tlv_u16 fields tag default = sized_uint 2 (lookup tag fields) default

unfoldable pub tlv_u32 : Fields → ℕ → ℕ → ℕ
unfolding sized_uint
tlv_u32 fields tag default = sized_uint 4 (lookup tag fields) default

unfoldable pub tlv_u64 : Fields → ℕ → ℕ → ℕ
unfolding sized_uint
tlv_u64 fields tag default = sized_uint 8 (lookup tag fields) default
