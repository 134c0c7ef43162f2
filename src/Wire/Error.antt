-- ===== src/Wire/Error.antt =====
-- The exceptions of protocol.py: one constructor for each message of `ProtocolError`, the
-- `struct.error` that `struct.pack` raises, and a fault of the model's own for a loop whose fuel
-- runs out (it is proved never to be raised).
use esp_iris.Common.{Result}

pub data ProtocolError : Type 0 where
  wire_uint_range : ProtocolError
  zero_byte truncated_block : ProtocolError
  payload_too_large invalid_channel wire_too_large : ProtocolError
  invalid_size short_frame unsupported_header invalid_reserved : ProtocolError
  size_mismatch crc_mismatch : ProtocolError
  tlv_too_large truncated_tlv_header truncated_tlv_value : ProtocolError
  struct_error : ProtocolError
  out_of_fuel : ProtocolError

abbrev pub Wire : Type 0 → Type 0
Wire A = Result ProtocolError A
