-- ===== src/Wire/Cobs/Tests.antt =====
-- Runs of the byte stuffing, and its theorems at concrete inputs.
use esp_iris.Common.{
  ℕ, ◌+◌, ◌/◌, ◌≤◌, ◌≡◌, ◌≢◌, refl, List, [], ◌∷◌, length, All, IsByte, ok, err, arith,
}
use esp_iris.Wire.Error.{out_of_fuel, zero_byte, truncated_block}
use esp_iris.Wire.Cobs.{cobs_encode, cobs_decode}
use esp_iris.Wire.Cobs.RoundTrip.{cobs_decode-cobs_encode}
use esp_iris.Wire.Cobs.Shape.{IsCode, cobs_encode_shape}
use esp_iris.Wire.Cobs.Total.{cobs_decode_total, cobs_decode_bytes}

abbrev sample : List ℕ
sample = 0x11 ∷ 0 ∷ 0 ∷ 0x22 ∷ 0x33 ∷ []

sample_encoded : cobs_encode sample ≡ 2 ∷ 0x11 ∷ 1 ∷ 3 ∷ 0x22 ∷ 0x33 ∷ []
unfolding cobs_encode
sample_encoded = refl

zero_inside : cobs_decode (2 ∷ 0x11 ∷ 0 ∷ []) ≡ err zero_byte
unfolding cobs_decode
zero_inside = refl

cut_block : cobs_decode (5 ∷ 0x11 ∷ []) ≡ err truncated_block
unfolding cobs_decode
cut_block = refl

sample_decoded : cobs_decode (2 ∷ 0x11 ∷ 1 ∷ []) ≡ ok (0x11 ∷ 0 ∷ [])
unfolding cobs_decode
sample_decoded = refl

cobs_decode-cobs_encode_example : cobs_decode (cobs_encode sample) ≡ ok sample
cobs_decode-cobs_encode_example = cobs_decode-cobs_encode sample

cobs_encode_shape_example :
    All IsCode (cobs_encode sample)
    × (length (cobs_encode sample) ≤ length sample + 1 + length sample / 254)
cobs_encode_shape_example = cobs_encode_shape sample (omega arith)

cobs_decode_total_example : cobs_decode (5 ∷ 0x11 ∷ []) ≢ err out_of_fuel
cobs_decode_total_example = cobs_decode_total (5 ∷ 0x11 ∷ [])

abbrev decoded : List ℕ
decoded = 0x11 ∷ 0 ∷ []

cobs_decode_bytes_example : All IsByte decoded × (length decoded ≤ 3)
cobs_decode_bytes_example =
    cobs_decode_bytes (2 ∷ 0x11 ∷ 1 ∷ []) decoded sample_decoded (omega arith)
