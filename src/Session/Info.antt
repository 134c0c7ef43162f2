-- ===== src/Session/Info.antt =====
-- The HELLO of a device: what `_handle_hello` of session.py checks before it believes it.
use esp_iris.Common.{
  suc, ℕ, zero, suc, ◌==◌, ltb, not, ◌&&◌, ◌||◌, Bool, false, List, [], ◌∷◌, ◌++◌, length, is_empty,
  Option, none, some, Result, ok, err, ◌>>=◌, ◌>>◌, raise_if, bytes_eq, lookup, nat_eq,
}
use esp_iris.Wire.Tlv.{Fields, tlv_u8, tlv_u16, tlv_u32, tlv_u64}
use esp_iris.Wire.Codes.Enum.{int}
use esp_iris.Wire.Codes.Tags.{TlvTag, tlv_tag_enum}
use esp_iris.Session.State.{
  DeviceInfo, FirmwareMode, unknown, normal, recovery, SessionError, missing_device_id,
  invalid_hardware_mac, device_id_mismatch, unsupported_protocol, unsupported_features,
  unsupported_role, invalid_tag_length, tag_too_long, invalid_health_timeout,
}

-- `fields.get(tag, b"")`
abbrev pub value_of : Option (List ℕ) → List ℕ
value_of none = []
value_of (some value) = value

abbrev pub field : Fields → TlvTag → List ℕ
field fields tag = value_of (lookup (int tag) fields)

-- b"ESP-IRIS\x01\x00"
abbrev pub device_id_prefix : List ℕ
device_id_prefix = 0x45 ∷ 0x53 ∷ 0x50 ∷ 0x2d ∷ 0x49 ∷ 0x52 ∷ 0x49 ∷ 0x53 ∷ 1 ∷ 0 ∷ []

-- `tag in fields and len(fields[tag]) != size`
unfoldable pub wrong_length : Fields → TlvTag × ℕ → Bool
wrong_length fields (tag, size) = elim (lookup (int tag) fields) [
  | none ↦ false
  | some value ↦ not (length value == size)
]

unfoldable pub check_lengths : Fields → List (TlvTag × ℕ) → Result SessionError (Unit {0})
unfolding wrong_length
check_lengths fields [] = ok tt
check_lengths fields (entry ∷ entries) = do
  raise_if (wrong_length fields entry) (invalid_tag_length (int entry.0))
  check_lengths fields entries

unfoldable pub check_short : Fields → List TlvTag → Result SessionError (Unit {0})
check_short fields [] = ok tt
check_short fields (tag ∷ tags) = do
  raise_if (ltb 64 (length (field fields tag))) (tag_too_long (int tag))
  check_short fields tags

abbrev pub sized_tags : List (TlvTag × ℕ)
sized_tags =
    (TlvTag.firmware_role, 1)
    ∷ (TlvTag.recovery_abi, 2)
    ∷ (TlvTag.required_features, 8)
    ∷ (TlvTag.health_timeout_ms, 4)
    ∷ []

abbrev pub short_tags : List TlvTag
short_tags = TlvTag.product_contract ∷ TlvTag.chip_target ∷ TlvTag.board_id ∷ TlvTag.layout_id ∷ []

-- The device ID and the hardware address, if there is one.
unfoldable pub check_identity : Fields → Result SessionError (Unit {0})
check_identity fields = do
  raise_if (not (length (field fields TlvTag.device_id) == 16)) missing_device_id
  raise_if
      (not (is_empty (field fields TlvTag.hardware_mac))
        && not (length (field fields TlvTag.hardware_mac) == 6))
      invalid_hardware_mac
  raise_if
      (not (is_empty (field fields TlvTag.hardware_mac))
        && not (
            bytes_eq (field fields TlvTag.device_id)
              (device_id_prefix ++ field fields TlvTag.hardware_mac)))
      device_id_mismatch

unfoldable pub firmware_role : ℕ → Result SessionError FirmwareMode
firmware_role zero = ok unknown
firmware_role (suc zero) = ok normal
firmware_role (suc (suc zero)) = ok recovery
firmware_role role = err (unsupported_role role)

-- The checks of `_handle_hello` on the decoded fields; the mode is that of the role.
unfoldable pub check_hello : Fields → Result SessionError FirmwareMode
unfolding check_identity check_lengths check_short firmware_role
check_hello fields = do
  check_identity fields
  raise_if (not (tlv_u16 fields (int TlvTag.protocol_version) 0 == 1))
      (unsupported_protocol (tlv_u16 fields (int TlvTag.protocol_version) 0))
  check_lengths fields sized_tags
  check_short fields short_tags
  raise_if (not (tlv_u64 fields (int TlvTag.required_features) 0 == 0))
      (unsupported_features (tlv_u64 fields (int TlvTag.required_features) 0))
  mode ← firmware_role (tlv_u8 fields (int TlvTag.firmware_role) 0)
  raise_if
      (ltb (tlv_u32 fields (int TlvTag.health_timeout_ms) 45000) 1000
        || ltb 600000 (tlv_u32 fields (int TlvTag.health_timeout_ms) 45000))
      invalid_health_timeout
  ok mode

-- The `DeviceInfo` that the fields make.
abbrev pub hello_info : Fields → ℕ → FirmwareMode → DeviceInfo
hello_info fields session_id mode = record {
  device_id = field fields TlvTag.device_id;
  boot_id = tlv_u64 fields (int TlvTag.boot_id) 0;
  session_id = session_id;
  transport = tlv_u8 fields (int TlvTag.transport) 0;
  project_name = field fields TlvTag.project_name;
  app_version = field fields TlvTag.app_version;
  idf_version = field fields TlvTag.idf_version;
  firmware_sha256 = field fields TlvTag.firmware_sha256;
  reset_reason = tlv_u32 fields (int TlvTag.reset_reason) 0;
  capabilities = tlv_u64 fields (int TlvTag.capabilities) 0;
  auth_mode = tlv_u8 fields (int TlvTag.auth_mode) 0;
  max_payload = tlv_u32 fields (int TlvTag.max_payload) 4000;
  firmware_mode = mode;
  product_contract = field fields TlvTag.product_contract;
  chip_target = field fields TlvTag.chip_target;
  board_id = field fields TlvTag.board_id;
  layout_id = field fields TlvTag.layout_id;
  recovery_abi = tlv_u16 fields (int TlvTag.recovery_abi) 0;
  required_features = tlv_u64 fields (int TlvTag.required_features) 0;
  health_timeout_ms = tlv_u32 fields (int TlvTag.health_timeout_ms) 45000;
  hardware_mac = field fields TlvTag.hardware_mac;
}

unfoldable pub read_info : Fields → ℕ → Result SessionError DeviceInfo
unfolding check_hello
read_info fields session_id = do mode ← check_hello fields; ok (hello_info fields session_id mode)
