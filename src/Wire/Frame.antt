-- ===== src/Wire/Frame.antt =====
-- Frames of protocol.py: the header layout, `_wire_uint`, `encode_frame` and `decode_frame`.
pub mod Layout
pub mod Encode
mod Checks
pub mod Decode
mod Tests
use esp_iris.Common.{
  ℕ, ◌+◌, ◌-◌, ◌^◌, ◌%◌, ◌≤◌, ◌<◌, ◌==◌, ltb, leb, not, ◌||◌, List, [], ◌∷◌, ◌++◌, length, take,
  drop, is_empty, ok, err, ◌>>=◌, ◌>>◌, raise_if, ℤ, pos, negsuc, to_le, uint_at, bytes_eq,
  if◌then◌else◌, All, IsByte, ◌≡◌,
}
use esp_iris.Wire.Error.{
  Wire, wire_uint_range, payload_too_large, invalid_channel, wire_too_large, invalid_size,
  short_frame, unsupported_header, invalid_reserved, size_mismatch, crc_mismatch,
}
use esp_iris.Wire.Crc.{crc32}
use esp_iris.Wire.Cobs.{cobs_encode, cobs_decode}

-- b"IRIS"
abbrev pub magic : List ℕ
magic = 0x49 ∷ 0x52 ∷ 0x49 ∷ 0x53 ∷ []

abbrev pub version : ℕ
version = 1

abbrev pub header_size : ℕ
header_size = 32

abbrev pub max_payload : ℕ
max_payload = 4000

abbrev pub max_wire_frame : ℕ
max_wire_frame = 4096

-- Channel.SYSTEM_UPDATE, the highest channel.
abbrev pub system_update_channel : ℕ
system_update_channel = 9

-- The integer fields are Python integers, as a caller may fill them in.
pub record Frame : Type 0 where
  pub channel : ℤ
  pub type : ℤ
  pub flags : ℤ
  pub session_id : ℤ
  pub request_id : ℤ
  pub stream_id : ℤ
  pub sequence : ℤ
  pub payload : List ℕ

pub wire_uint : ℤ → ℕ → Wire ℕ
wire_uint (pos n) bits = if ltb n (2 ^ bits) then ok n else err wire_uint_range
wire_uint (negsuc n) bits = err wire_uint_range

-- `zlib.crc32(...) & 0xFFFFFFFF`
pub checksum : List ℕ → ℕ
checksum bytes = crc32 bytes % 2 ^ 32

-- `HEADER.pack`, with the format "<4sBBBBHHIIIII".
unfoldable pub pack_header : ℕ → ℕ → ℕ → ℕ → ℕ → ℕ → ℕ → ℕ → List ℕ
pack_header channel type flags session_id request_id stream_id sequence payload_size =
    magic
    ++ (to_le 1 version
        ++ (to_le 1 header_size
            ++ (to_le 1 channel
                ++ (to_le 1 type
                    ++ (to_le 2 flags
                        ++ (to_le 2 0
                            ++ (to_le 4 session_id
                                ++ (to_le 4 request_id
                                    ++ (to_le 4 stream_id
                                        ++ (to_le 4 sequence ++ to_le 4 payload_size))))))))))

-- The frame behind its checksum, before stuffing.
pub with_checksum : List ℕ → List ℕ
with_checksum plain = plain ++ to_le 4 (checksum plain)

pub encode_frame : Frame → Wire (List ℕ)
unfolding wire_uint
encode_frame frame = do
  raise_if (ltb max_payload (length frame.payload)) payload_too_large
  channel ← wire_uint frame.channel 8
  raise_if (ltb system_update_channel channel) invalid_channel
  type ← wire_uint frame.type 8
  flags ← wire_uint frame.flags 16
  session_id ← wire_uint frame.session_id 32
  request_id ← wire_uint frame.request_id 32
  stream_id ← wire_uint frame.stream_id 32
  sequence ← wire_uint frame.sequence 32
  let header =
      pack_header channel type flags session_id request_id stream_id sequence (length frame.payload)
  let wire = cobs_encode (with_checksum (header ++ frame.payload)) ++ 0 ∷ []
  raise_if (ltb max_wire_frame (length wire)) wire_too_large
  ok wire

-- `decode_frame` behind `cobs_decode`. `plain[HEADER_SIZE:-4]` has `len(plain) - 36` bytes.
pub decode_plain : List ℕ → Wire Frame
decode_plain plain = do
  raise_if (ltb (length plain) (header_size + 4)) short_frame
  raise_if
      (not (bytes_eq (take 4 plain) magic)
        || (not (uint_at 1 4 plain == version) || not (uint_at 1 5 plain == header_size)))
      unsupported_header
  raise_if (not (uint_at 2 10 plain == 0) || ltb system_update_channel (uint_at 1 6 plain))
      invalid_reserved
  raise_if
      (ltb max_payload (uint_at 4 28 plain)
        || not (length plain == header_size + uint_at 4 28 plain + 4))
      size_mismatch
  raise_if (not (uint_at 4 (length plain - 4) plain == checksum (take (length plain - 4) plain)))
      crc_mismatch
  ok (record {
    channel = pos (uint_at 1 6 plain);
    type = pos (uint_at 1 7 plain);
    flags = pos (uint_at 2 8 plain);
    session_id = pos (uint_at 4 12 plain);
    request_id = pos (uint_at 4 16 plain);
    stream_id = pos (uint_at 4 20 plain);
    sequence = pos (uint_at 4 24 plain);
    payload = take (length plain - (header_size + 4)) (drop header_size plain);
  })

unfoldable pub decode_frame : List ℕ → Wire Frame
unfolding decode_plain
decode_frame encoded = do
  raise_if (is_empty encoded || leb max_wire_frame (length encoded)) invalid_size
  plain ← cobs_decode encoded
  decode_plain plain

-- A frame that fits the wire: every field in its range.
abbrev pub IsUint : ℕ → ℤ → Type 0
IsUint limit (pos n) = n < limit
IsUint limit (negsuc n) = ⊥

pub record IsValid (f : Frame) : Type 0 where
  pub channel : IsUint 10 f.channel
  pub type : IsUint (2 ^ 8) f.type
  pub flags : IsUint (2 ^ 16) f.flags
  pub session_id : IsUint (2 ^ 32) f.session_id
  pub request_id : IsUint (2 ^ 32) f.request_id
  pub stream_id : IsUint (2 ^ 32) f.stream_id
  pub sequence : IsUint (2 ^ 32) f.sequence
  pub short : length f.payload ≤ max_payload
  pub bytes : All IsByte f.payload
