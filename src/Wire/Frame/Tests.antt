-- ===== src/Wire/Frame/Tests.antt =====
-- Runs of the frame codec, and its theorems at concrete inputs.
use esp_iris.Common.{
  set, ℕ, ◌≤◌, ◌≡◌, refl, List, [], ◌∷◌, ◌++◌, length, All, ok, err, arith, pos, negsuc,
}
use esp_iris.Wire.Error.{invalid_channel, wire_uint_range, crc_mismatch}
use esp_iris.Wire.Cobs.{cobs_encode, cobs_decode}
use esp_iris.Wire.Cobs.Shape.{IsCode}
use esp_iris.Wire.Crc.{crc32}
use esp_iris.Wire.Frame.{
  Frame, IsValid, encode_frame, decode_frame, pack_header, with_checksum, checksum,
}
use esp_iris.Wire.Frame.Encode.{decode_frame-encode_frame, encode_frame-IsValid}
use esp_iris.Wire.Frame.Decode.{decode_frame_sound}

-- A PING on the control channel.
abbrev ping : Frame
ping = record {
  channel = pos 0;
  type = pos 3;
  flags = pos 0;
  session_id = pos 7;
  request_id = pos 1;
  stream_id = pos 0;
  sequence = pos 2;
  payload = 1 ∷ 2 ∷ [];
}

ping-IsValid : IsValid ping
ping-IsValid = omega arith

decode_frame-encode_frame_example :
    (encoded : List ℕ) × (encode_frame ping ≡ ok (encoded ++ 0 ∷ []))
    × (decode_frame encoded ≡ ok ping)
    × All IsCode encoded
    × (length encoded ≤ 4052)
decode_frame-encode_frame_example = decode_frame-encode_frame ping ping-IsValid

abbrev ping_encoded : List ℕ
ping_encoded =
    7 ∷ 73 ∷ 82 ∷ 73 ∷ 83 ∷ 1 ∷ 32 ∷ 2 ∷ 3 ∷ 1 ∷ 1 ∷ 1 ∷ 2 ∷ 7 ∷ 1 ∷ 1 ∷ 2 ∷ 1 ∷ 1 ∷ 1 ∷ 1 ∷ 1 ∷ 1
    ∷ 1 ∷ 2 ∷ 2 ∷ 1 ∷ 1 ∷ 2 ∷ 2 ∷ 1 ∷ 1 ∷ 7 ∷ 1 ∷ 2 ∷ 254 ∷ 137 ∷ 250 ∷ 145 ∷ []

ping_sent : encode_frame ping ≡ ok (ping_encoded ++ 0 ∷ [])
unfolding encode_frame pack_header with_checksum checksum crc32 cobs_encode
ping_sent = refl

ping_received : decode_frame ping_encoded ≡ ok ping
unfolding decode_frame checksum crc32 cobs_decode
ping_received = refl

-- One damaged byte.
ping_damaged : decode_frame (set ping_encoded 33 3) ≡ err crc_mismatch
unfolding decode_frame checksum crc32 cobs_decode
ping_damaged = refl

no_such_channel : encode_frame (record ping { channel = pos 10 }) ≡ err invalid_channel
unfolding encode_frame
no_such_channel = refl

negative_channel : encode_frame (record ping { channel = negsuc 0 }) ≡ err wire_uint_range
unfolding encode_frame
negative_channel = refl

encode_frame-IsValid_example : IsValid ping
encode_frame-IsValid_example =
    encode_frame-IsValid ping (ping_encoded ++ 0 ∷ []) (omega arith) ping_sent

decode_frame_sound_example :
    IsValid ping
    × (plain : List ℕ) × (cobs_decode ping_encoded ≡ ok plain)
    × (encode_frame ping ≡ ok (cobs_encode plain ++ 0 ∷ []))
decode_frame_sound_example = decode_frame_sound ping_encoded ping (omega arith) ping_received
