-- ===== src/Wire/Tlv/Tests.antt =====
-- Runs of the TLV codec, and its theorems at concrete inputs.
use esp_iris.Common.{insert, lookup, ℕ, ◌≡◌, ◌≢◌, refl, List, [], ◌∷◌, All, ok, err, arith, negsuc}
use esp_iris.Wire.Error.{out_of_fuel, truncated_tlv_header, truncated_tlv_value, struct_error}
use esp_iris.Wire.Tlv.{Fields, encode_tlv, encode_tlv_item, decode_tlv, tlv_u16, tlv_u32}
use esp_iris.Wire.Tlv.Exact.{
  IsItem, tagged, dict_of, decode_tlv-encode_tlv, decode_tlv_exact, decode_tlv_total,
}
use esp_iris.Wire.Tlv.Readers.{u16, read, read-encode}

-- A protocol version, sent twice, and a text.
abbrev items : List (ℕ × List ℕ)
items = (4, 9 ∷ 0 ∷ []) ∷ (9, 0x61 ∷ []) ∷ (4, 1 ∷ 0 ∷ []) ∷ []

abbrev payload : List ℕ
payload = 4 ∷ 2 ∷ 0 ∷ 9 ∷ 0 ∷ 9 ∷ 1 ∷ 0 ∷ 0x61 ∷ 4 ∷ 2 ∷ 0 ∷ 1 ∷ 0 ∷ []

abbrev fields : Fields
fields = (4, 1 ∷ 0 ∷ []) ∷ (9, 0x61 ∷ []) ∷ []

items_sent : encode_tlv (tagged items) ≡ ok payload
unfolding encode_tlv encode_tlv_item
items_sent = refl

items_received : decode_tlv payload ≡ ok fields
unfolding decode_tlv insert
items_received = refl

version_read : tlv_u16 fields 4 0 ≡ 1
unfolding tlv_u16 lookup
version_read = refl

-- A field of another size reads as the default.
wrong_size : tlv_u32 fields 4 45000 ≡ 45000
unfolding tlv_u32 lookup
wrong_size = refl

cut_header : decode_tlv (4 ∷ 2 ∷ []) ≡ err truncated_tlv_header
unfolding decode_tlv
cut_header = refl

cut_value : decode_tlv (4 ∷ 2 ∷ 0 ∷ 9 ∷ []) ≡ err truncated_tlv_value
unfolding decode_tlv
cut_value = refl

negative_tag : encode_tlv ((negsuc 0, []) ∷ []) ≡ err struct_error
unfolding encode_tlv encode_tlv_item
negative_tag = refl

decode_tlv-encode_tlv_example :
    (p : List ℕ) × (encode_tlv (tagged items) ≡ ok p) × (decode_tlv p ≡ ok (dict_of [] items))
decode_tlv-encode_tlv_example = decode_tlv-encode_tlv items (omega arith)

decode_tlv_exact_example :
    (sent : List (ℕ × List ℕ)) × All IsItem sent
    × (encode_tlv (tagged sent) ≡ ok payload)
    × (fields ≡ dict_of [] sent)
decode_tlv_exact_example = decode_tlv_exact payload fields (omega arith) items_received

decode_tlv_total_example : decode_tlv (4 ∷ 2 ∷ []) ≢ err out_of_fuel
decode_tlv_total_example = decode_tlv_total (4 ∷ 2 ∷ [])

read-encode_example :
    (p : List ℕ) × (f : Fields) × (encode_tlv (tagged items) ≡ ok p)
    × (decode_tlv p ≡ ok f)
    × (read u16 f 4 0 ≡ 1)
read-encode_example = read-encode u16 items 4 1 0 (omega arith) refl (omega arith)
