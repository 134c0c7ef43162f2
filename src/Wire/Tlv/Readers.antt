-- ===== src/Wire/Tlv/Readers.antt =====
-- The typed readers on a decoded payload.
use esp_iris.Common.{
  ℕ, ◌^◌, ◌<◌, ◌≡◌, refl, ap, ◌∙◌, ◌==◌, if◌then◌else◌, List, [], ◌∷◌, length, Option, none, some,
  ok, arith, to_le, from_le, lookup, insert, nat_eq, lookup-insert, All, ==_eq, length-to_le,
}
use esp_iris.Wire.Tlv.{
  Fields, encode_tlv, decode_tlv, sized_uint, tlv_u8, tlv_u16, tlv_u32, tlv_u64,
}
use esp_iris.Wire.Tlv.Exact.{IsItem, tagged, dict_of, decode_tlv-encode_tlv}

-- The value that the last item with the tag gives, or the one from before.
abbrev pub latest : ℕ → Option (List ℕ) → List (ℕ × List ℕ) → Option (List ℕ)
latest tag found [] = found
latest tag found ((t, value) ∷ items) = latest tag (if t == tag then some value else found) items

lookup-dict_of :
    (tag : ℕ) (items : List (ℕ × List ℕ)) (result : Fields)
    → lookup tag (dict_of result items) ≡ latest tag (lookup tag result) items
unfolding dict_of
lookup-dict_of tag [] result = refl
lookup-dict_of tag ((t, value) ∷ items) result =
    lookup-dict_of tag items (insert t value result)
    ∙ ap (λ found. latest tag found items) (lookup-insert t tag value result)

lookup-dict_of_nil :
    (tag : ℕ) (items : List (ℕ × List ℕ)) → lookup tag (dict_of [] items) ≡ latest tag none items
unfolding lookup
lookup-dict_of_nil tag items = lookup-dict_of tag items []

-- The four readers by the width of the number that they read.
pub data Width : Type 0 where
  u8 u16 u32 u64 : Width

abbrev pub size : Width → ℕ
size u8 = 1
size u16 = 2
size u32 = 4
size u64 = 8

abbrev pub read : Width → Fields → ℕ → ℕ → ℕ
read u8 = tlv_u8
read u16 = tlv_u16
read u32 = tlv_u32
read u64 = tlv_u64

read-sized :
    (w : Width) (fields : Fields) (tag default : ℕ)
    → read w fields tag default ≡ sized_uint (size w) (lookup tag fields) default
unfolding tlv_u8 tlv_u16 tlv_u32 tlv_u64
read-sized u8 fields tag default = refl
read-sized u16 fields tag default = refl
read-sized u32 fields tag default = refl
read-sized u64 fields tag default = refl

from_le-to_le : (w : Width) (n : ℕ) → n < 256 ^ size w → from_le (to_le (size w) n) ≡ n
from_le-to_le u8 n h = omega arith
from_le-to_le u16 n h = omega arith
from_le-to_le u32 n h = omega arith
from_le-to_le u64 n h = omega arith

sized-to_le :
    (w : Width) (n default : ℕ)
    → n < 256 ^ size w
    → sized_uint (size w) (some (to_le (size w) n)) default ≡ n
unfolding sized_uint
sized-to_le w n default h =
    rw (==_eq (length (to_le (size w) n)) (size w) (length-to_le (size w) n)) (from_le-to_le w n h)

-- A number that was sent last under its tag, at the reader's width, is read back through the payload.
pub read-encode :
    (w : Width) (items : List (ℕ × List ℕ)) (tag n default : ℕ)
    → All IsItem items
    → latest tag none items ≡ some (to_le (size w) n)
    → n < 256 ^ size w
    → (payload : List ℕ) × (fields : Fields) × (encode_tlv (tagged items) ≡ ok payload)
      × (decode_tlv payload ≡ ok fields)
      × (read w fields tag default ≡ n)
read-encode w items tag n default v e h =
    let (payload, sent, received) = decode_tlv-encode_tlv items v in
    (
      payload,
      dict_of [] items,
      sent,
      received,
      read-sized w (dict_of [] items) tag default
          ∙ ap (λ found. sized_uint (size w) found default) (lookup-dict_of_nil tag items ∙ e)
          ∙ sized-to_le w n default h,
    )
