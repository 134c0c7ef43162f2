-- ===== src/Wire/Codes/Tags.antt =====
-- Enumerations of protocol.py: TlvTag.
use esp_iris.Common.{ℕ, List, [], ◌∷◌, ◌≡◌, refl, some}
use esp_iris.Wire.Codes.Enum.{IntEnum, of_code}

pub data TlvTag : Type 0 where
  device_id boot_id uptime_us protocol_version capabilities transport auth_mode : TlvTag
  reset_reason project_name app_version firmware_sha256 idf_version max_payload : TlvTag
  firmware_role product_contract chip_target board_id recovery_abi : TlvTag
  required_features health_timeout_ms layout_id hardware_mac free_internal : TlvTag
  min_free_internal log_dropped rx_frames tx_frames invalid_frames link_count : TlvTag
  task_stack_free_min worker_active_max_us lifecycle_state internal_heap_used : TlvTag
  static_internal_bytes previous_boot_crash core_dump_present core_dump_valid : TlvTag
  core_dump_size core_dump_elf_sha256 core_dump_elf_sha256_complete panic_reason : TlvTag
  core_dump_chunk_max crash_count crash_limit crash_loop_triggered : TlvTag
  crash_recovery_pending crash_origin_reset_reason crash_failed_app_address : TlvTag
  crash_failed_firmware_sha256 crash_state_error auth_challenge job_id job_state : TlvTag
  job_progress job_result media_dropped ota_partition : TlvTag

abbrev pub tlv_tag_code : TlvTag → ℕ
tlv_tag_code TlvTag.device_id = 0x01
tlv_tag_code TlvTag.boot_id = 0x02
tlv_tag_code TlvTag.uptime_us = 0x03
tlv_tag_code TlvTag.protocol_version = 0x04
tlv_tag_code TlvTag.capabilities = 0x05
tlv_tag_code TlvTag.transport = 0x06
tlv_tag_code TlvTag.auth_mode = 0x07
tlv_tag_code TlvTag.reset_reason = 0x08
tlv_tag_code TlvTag.project_name = 0x09
tlv_tag_code TlvTag.app_version = 0x0a
tlv_tag_code TlvTag.firmware_sha256 = 0x0b
tlv_tag_code TlvTag.idf_version = 0x0c
tlv_tag_code TlvTag.max_payload = 0x0d
tlv_tag_code TlvTag.firmware_role = 0x0e
tlv_tag_code TlvTag.product_contract = 0x0f
tlv_tag_code TlvTag.chip_target = 0x10
tlv_tag_code TlvTag.board_id = 0x11
tlv_tag_code TlvTag.recovery_abi = 0x12
tlv_tag_code TlvTag.required_features = 0x13
tlv_tag_code TlvTag.health_timeout_ms = 0x14
tlv_tag_code TlvTag.layout_id = 0x15
tlv_tag_code TlvTag.hardware_mac = 0x16
tlv_tag_code TlvTag.free_internal = 0x20
tlv_tag_code TlvTag.min_free_internal = 0x21
tlv_tag_code TlvTag.log_dropped = 0x22
tlv_tag_code TlvTag.rx_frames = 0x23
tlv_tag_code TlvTag.tx_frames = 0x24
tlv_tag_code TlvTag.invalid_frames = 0x25
tlv_tag_code TlvTag.link_count = 0x26
tlv_tag_code TlvTag.task_stack_free_min = 0x27
tlv_tag_code TlvTag.worker_active_max_us = 0x28
tlv_tag_code TlvTag.lifecycle_state = 0x29
tlv_tag_code TlvTag.internal_heap_used = 0x2a
tlv_tag_code TlvTag.static_internal_bytes = 0x2b
tlv_tag_code TlvTag.previous_boot_crash = 0x30
tlv_tag_code TlvTag.core_dump_present = 0x31
tlv_tag_code TlvTag.core_dump_valid = 0x32
tlv_tag_code TlvTag.core_dump_size = 0x33
tlv_tag_code TlvTag.core_dump_elf_sha256 = 0x34
tlv_tag_code TlvTag.core_dump_elf_sha256_complete = 0x35
tlv_tag_code TlvTag.panic_reason = 0x36
tlv_tag_code TlvTag.core_dump_chunk_max = 0x37
tlv_tag_code TlvTag.crash_count = 0x38
tlv_tag_code TlvTag.crash_limit = 0x39
tlv_tag_code TlvTag.crash_loop_triggered = 0x3a
tlv_tag_code TlvTag.crash_recovery_pending = 0x3b
tlv_tag_code TlvTag.crash_origin_reset_reason = 0x3c
tlv_tag_code TlvTag.crash_failed_app_address = 0x3d
tlv_tag_code TlvTag.crash_failed_firmware_sha256 = 0x3e
tlv_tag_code TlvTag.crash_state_error = 0x3f
tlv_tag_code TlvTag.auth_challenge = 0x40
tlv_tag_code TlvTag.job_id = 0x41
tlv_tag_code TlvTag.job_state = 0x42
tlv_tag_code TlvTag.job_progress = 0x43
tlv_tag_code TlvTag.job_result = 0x44
tlv_tag_code TlvTag.media_dropped = 0x45
tlv_tag_code TlvTag.ota_partition = 0x46

abbrev pub tlv_tag_members : List TlvTag
tlv_tag_members =
    TlvTag.device_id ∷ TlvTag.boot_id ∷ TlvTag.uptime_us ∷ TlvTag.protocol_version
    ∷ TlvTag.capabilities ∷ TlvTag.transport ∷ TlvTag.auth_mode ∷ TlvTag.reset_reason
    ∷ TlvTag.project_name ∷ TlvTag.app_version ∷ TlvTag.firmware_sha256 ∷ TlvTag.idf_version
    ∷ TlvTag.max_payload ∷ TlvTag.firmware_role ∷ TlvTag.product_contract ∷ TlvTag.chip_target
    ∷ TlvTag.board_id ∷ TlvTag.recovery_abi ∷ TlvTag.required_features ∷ TlvTag.health_timeout_ms
    ∷ TlvTag.layout_id ∷ TlvTag.hardware_mac ∷ TlvTag.free_internal ∷ TlvTag.min_free_internal
    ∷ TlvTag.log_dropped ∷ TlvTag.rx_frames ∷ TlvTag.tx_frames ∷ TlvTag.invalid_frames
    ∷ TlvTag.link_count ∷ TlvTag.task_stack_free_min ∷ TlvTag.worker_active_max_us
    ∷ TlvTag.lifecycle_state ∷ TlvTag.internal_heap_used ∷ TlvTag.static_internal_bytes
    ∷ TlvTag.previous_boot_crash ∷ TlvTag.core_dump_present ∷ TlvTag.core_dump_valid
    ∷ TlvTag.core_dump_size ∷ TlvTag.core_dump_elf_sha256 ∷ TlvTag.core_dump_elf_sha256_complete
    ∷ TlvTag.panic_reason ∷ TlvTag.core_dump_chunk_max ∷ TlvTag.crash_count ∷ TlvTag.crash_limit
    ∷ TlvTag.crash_loop_triggered ∷ TlvTag.crash_recovery_pending ∷ TlvTag.crash_origin_reset_reason
    ∷ TlvTag.crash_failed_app_address ∷ TlvTag.crash_failed_firmware_sha256
    ∷ TlvTag.crash_state_error ∷ TlvTag.auth_challenge ∷ TlvTag.job_id ∷ TlvTag.job_state
    ∷ TlvTag.job_progress ∷ TlvTag.job_result ∷ TlvTag.media_dropped ∷ TlvTag.ota_partition ∷ []

pub tlv_tag_distinct : (x : TlvTag) → of_code tlv_tag_code tlv_tag_members (tlv_tag_code x) ≡ some x
unfolding of_code
tlv_tag_distinct TlvTag.device_id = refl
tlv_tag_distinct _ = refl

instance abbrev pub tlv_tag_enum : IntEnum TlvTag
tlv_tag_enum = record {
  code = tlv_tag_code;
  members = tlv_tag_members;
  distinct = tlv_tag_distinct;
}
