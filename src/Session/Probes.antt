-- ===== src/Session/Probes.antt =====
-- Reports that a session asks its device for in session.py: `ota_status`, `crash_report`, and the
-- start and stop of a mirror.
use esp_iris.Common.{
  ℕ, ◌+◌, ◌/◌, ◌%◌, ◌==◌, ltb, leb, not, ◌&&◌, ◌||◌, Bool, true, false, if◌then◌else◌, List, [],
  ◌∷◌, ◌++◌, length, drop, set, is_empty, Result, ok, err, ◌>>=◌, ◌>>◌, raise_if, to_le, uint_at, ℤ,
}
use esp_iris.Wire.Codes.Enum.{int}
use esp_iris.Wire.Codes.Transport.{Channel, channel_enum}
use esp_iris.Wire.Codes.Services.{
  MediaType, CrashType, OtaType, media_type_enum, crash_type_enum, ota_type_enum,
}
use esp_iris.Wire.Codes.Tags.{TlvTag, tlv_tag_enum}
use esp_iris.Wire.Error.{ProtocolError}
use esp_iris.Wire.Frame.{Frame}
use esp_iris.Wire.Tlv.{Fields, decode_tlv, tlv_u8, tlv_u32, tlv_u64}
use esp_iris.Session.State.{Session, DeviceInfo}
use esp_iris.Session.Info.{field}
use esp_iris.Session.Records.{nat, signed32}
use esp_iris.Session.Receive.{is_media}
use esp_iris.Session.Requests.{
  CallError, invalid_request, unexpected_response, invalid_response, bad_payload, Description,
  has_type, encode_media_description,
}

pub record OtaStatus : Type 0 where
  pub active : Bool
  pub job_id : ℕ
  pub bytes_total : ℕ
  pub bytes_received : ℕ
  pub progress_permille : ℕ
  pub result : ℤ
  pub partition : List ℕ

-- `ota_status`, on the answer to STATUS.
unfoldable pub ota_status : Frame → Result CallError OtaStatus
ota_status frame = do
  raise_if (not (has_type frame (int OtaType.status)) || ltb (length frame.payload) 20)
      unexpected_response
  raise_if (not (length frame.payload == 20 + uint_at 1 15 frame.payload)) invalid_response
  ok (record {
    active = not (uint_at 1 14 frame.payload == 0);
    job_id = uint_at 4 0 frame.payload;
    bytes_total = uint_at 4 4 frame.payload;
    bytes_received = uint_at 4 8 frame.payload;
    progress_permille = uint_at 2 12 frame.payload;
    result = signed32 (uint_at 4 16 frame.payload);
    partition = drop 20 frame.payload;
  })

-- `bytes.hex()`, as character codes.
abbrev pub hex_digit : ℕ → ℕ
hex_digit d = if ltb d 10 then 0x30 + d else 0x57 + d

unfoldable pub hex : List ℕ → List ℕ
hex [] = []
hex (b ∷ bytes) = hex_digit (b / 16) ∷ hex_digit (b % 16) ∷ hex bytes

unfoldable pub starts_with : List ℕ → List ℕ → Bool
starts_with text [] = true
starts_with [] (p ∷ prefix) = false
starts_with (c ∷ text) (p ∷ prefix) = (c == p) && starts_with text prefix

pub record CrashReport : Type 0 where
  pub device_id : List ℕ
  pub boot_id : ℕ
  pub session_id : ℕ
  pub reset_reason : ℕ
  pub previous_boot_crash : Bool
  pub crash_count : ℕ
  pub crash_limit : ℕ
  pub crash_loop_triggered : Bool
  pub crash_recovery_pending : Bool
  pub crash_origin_reset_reason : ℕ
  pub crash_failed_app_address : ℕ
  pub crash_failed_firmware_sha256 : List ℕ
  pub crash_state_error : ℕ
  pub core_dump_present : Bool
  pub core_dump_valid : Bool
  pub core_dump_size : ℕ
  pub core_dump_chunk_max : ℕ
  pub core_dump_elf_sha256 : List ℕ
  pub core_dump_elf_sha256_complete : Bool
  pub firmware_sha256 : List ℕ
  pub firmware_sha_matches : Bool
  pub decode_eligible : Bool
  pub panic_reason : List ℕ

abbrev pub flag : Fields → TlvTag → Bool
flag fields tag = not (tlv_u8 fields (int tag) 0 == 0)

-- `bool(core_sha) and self.info.firmware_sha256.startswith(core_sha)`
abbrev pub sha_matches : DeviceInfo → Fields → Bool
sha_matches info fields =
    not (is_empty (field fields TlvTag.core_dump_elf_sha256))
    && starts_with (hex info.firmware_sha256) (field fields TlvTag.core_dump_elf_sha256)

unfoldable pub read_crash_report : DeviceInfo → Fields → CrashReport
unfolding hex starts_with
read_crash_report info fields = record {
  device_id = info.device_id;
  boot_id = tlv_u64 fields (int TlvTag.boot_id) info.boot_id;
  session_id = info.session_id;
  reset_reason = tlv_u32 fields (int TlvTag.reset_reason) 0;
  previous_boot_crash = flag fields TlvTag.previous_boot_crash;
  crash_count = tlv_u32 fields (int TlvTag.crash_count) 0;
  crash_limit = tlv_u32 fields (int TlvTag.crash_limit) 0;
  crash_loop_triggered = flag fields TlvTag.crash_loop_triggered;
  crash_recovery_pending = flag fields TlvTag.crash_recovery_pending;
  crash_origin_reset_reason = tlv_u32 fields (int TlvTag.crash_origin_reset_reason) 0;
  crash_failed_app_address = tlv_u32 fields (int TlvTag.crash_failed_app_address) 0;
  crash_failed_firmware_sha256 = field fields TlvTag.crash_failed_firmware_sha256;
  crash_state_error = tlv_u32 fields (int TlvTag.crash_state_error) 0;
  core_dump_present = flag fields TlvTag.core_dump_present;
  core_dump_valid = flag fields TlvTag.core_dump_valid;
  core_dump_size = tlv_u32 fields (int TlvTag.core_dump_size) 0;
  core_dump_chunk_max = tlv_u32 fields (int TlvTag.core_dump_chunk_max) 1024;
  core_dump_elf_sha256 = field fields TlvTag.core_dump_elf_sha256;
  core_dump_elf_sha256_complete = flag fields TlvTag.core_dump_elf_sha256_complete;
  firmware_sha256 = info.firmware_sha256;
  firmware_sha_matches = sha_matches info fields;
  decode_eligible = flag fields TlvTag.core_dump_elf_sha256_complete && sha_matches info fields;
  panic_reason = field fields TlvTag.panic_reason;
}

abbrev pub decoded : Result ProtocolError Fields → Result CallError Fields
decoded (ok fields) = ok fields
decoded (err e) = err (bad_payload e)

-- `crash_report`, on the answer to METADATA_REQUEST.
unfoldable pub crash_report : DeviceInfo → Frame → Result CallError CrashReport
unfolding read_crash_report
crash_report info frame = do
  raise_if
      (not (nat frame.channel == int Channel.crash)
        || not (has_type frame (int CrashType.metadata_response)))
      unexpected_response
  fields ← decoded (decode_tlv frame.payload)
  ok (read_crash_report info fields)

-- The request of `mirror_start`.
unfoldable pub mirror_request : ℕ → Description → ℕ → Result CallError (List ℕ)
unfolding encode_media_description
mirror_request channel description fps = do
  raise_if (not (is_media channel)) invalid_request
  raise_if (not (leb 1 fps && leb fps 60)) invalid_request
  bytes ← encode_media_description description
  ok (bytes ++ (to_le 2 fps ++ to_le 2 0))

-- `mirror_stop`: an answer MIRROR_STATE ends the credit of the channel.
unfoldable pub mirror_stopped : ℕ → Frame → Session → Result CallError Session
mirror_stopped channel frame s = do
  raise_if (not (has_type frame (int MediaType.mirror_state))) unexpected_response
  ok (record s { media_credit = set s.media_credit channel 0 })
