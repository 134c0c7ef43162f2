-- ===== src/Session/Records.antt =====
-- The records that a device sends in session.py: logs, job updates, events and media.
use esp_iris.Common.{
  ◌*◌, ℕ, ◌+◌, ◌-◌, ◌^◌, ◌==◌, ltb, not, ◌||◌, if◌then◌else◌, List, [], ◌∷◌, ◌++◌, length, drop,
  Option, none, some, ok, err, Result, set, get_or, uint_at, ℤ, pos, negsuc, nat_eq,
}
use esp_iris.Wire.Codes.Enum.{int}
use esp_iris.Wire.Codes.Transport.{channel_enum, control_type_enum}
use esp_iris.Wire.Codes.Services.{MediaType, EventType, media_type_enum, event_type_enum}
use esp_iris.Wire.Codes.Tags.{TlvTag, tlv_tag_enum}
use esp_iris.Wire.Frame.{Frame}
use esp_iris.Wire.Tlv.{Fields, decode_tlv, tlv_u8, tlv_u32, tlv_u64}
use esp_iris.Session.State.{
  Session, DeviceInfo, SessionError, short_log, log_size_mismatch, invalid_media,
  media_size_mismatch, invalid_job_size, job_reserved, logged, job_updated, device_reported,
  media_received, Job, DeviceEvent, Done, ◌>>=◌, call,
}
use esp_iris.Session.Info.{field}
use esp_iris.Session.Send.{grant_log_credit, grant_media_credit}
use esp_iris.Session.Hello.{log_credit_grant}

-- The fields of a frame that `decode_frame` returned are no negative numbers.
abbrev pub nat : ℤ → ℕ
nat (pos n) = n
nat (negsuc n) = 0

abbrev pub log_credit_low_water : ℕ
log_credit_low_water = 128 * 1024

-- The record of "<QIBBH" and the text, which the callback gets, and the credit that it uses up.
unfoldable pub take_log : List ℕ → Session → Session
take_log payload s = record s {
  log_credit = s.log_credit - length payload;
  events =
      s.events
      ++ logged s.info (record {
        monotonic_us = uint_at 8 0 payload;
        dropped_bytes = uint_at 4 8 payload;
        is_stderr = uint_at 1 12 payload == 2;
        flags = uint_at 1 13 payload;
        text = drop 16 payload;
      })
        ∷ [];
}

unfoldable pub refill_log : Session → Done
unfolding grant_log_credit
refill_log t =
    if ltb t.log_credit log_credit_low_water
    then grant_log_credit log_credit_grant t
    else (ok tt, t)

-- `_handle_log`
unfoldable pub handle_log : List ℕ → Session → Done
unfolding take_log refill_log
handle_log payload s =
    if ltb (length payload) 16
    then (err short_log, s)
    else if not (length payload == 16 + uint_at 2 14 payload)
    then (err log_size_mismatch, s)
    else refill_log (take_log payload s)

-- A signed integer of 32 bits in two's complement.
abbrev pub signed32 : ℕ → ℤ
signed32 n = if ltb n (2 ^ 31) then pos n else negsuc (2 ^ 32 - 1 - n)

-- `_decode_job`; the record is "<IHBBHHi".
unfoldable pub decode_job : List ℕ → Result SessionError Job
decode_job payload =
    if not (length payload == 16)
    then err invalid_job_size
    else if not (uint_at 2 10 payload == 0)
    then err job_reserved
    else ok (record {
      job_id = uint_at 4 0 payload;
      job_kind = uint_at 2 4 payload;
      job_state_code = uint_at 1 6 payload;
      cancel_requested = not (uint_at 1 7 payload == 0);
      progress_permille = uint_at 2 8 payload;
      result = signed32 (uint_at 4 12 payload);
    })

abbrev pub boot_number : Option DeviceInfo → ℕ
boot_number none = 0
boot_number (some info) = info.boot_id

abbrev pub read_event : Frame → Option DeviceInfo → Fields → DeviceEvent
read_event frame info fields = record {
  event_type = nat frame.type;
  boot_id = tlv_u64 fields (int TlvTag.boot_id) (boot_number info);
  monotonic_us = tlv_u64 fields (int TlvTag.uptime_us) 0;
  reset_reason = tlv_u32 fields (int TlvTag.reset_reason) 0;
  crash_count = tlv_u32 fields (int TlvTag.crash_count) 0;
  crash_limit = tlv_u32 fields (int TlvTag.crash_limit) 0;
  crash_recovery_pending = not (tlv_u8 fields (int TlvTag.crash_recovery_pending) 0 == 0);
  crash_origin_reset_reason = tlv_u32 fields (int TlvTag.crash_origin_reset_reason) 0;
  crash_failed_app_address = tlv_u32 fields (int TlvTag.crash_failed_app_address) 0;
  crash_failed_firmware_sha256 = field fields TlvTag.crash_failed_firmware_sha256;
  crash_state_error = tlv_u32 fields (int TlvTag.crash_state_error) 0;
  sequence = nat frame.sequence;
}

unfoldable pub pass_job : Result SessionError Job → Session → Done
pass_job (err e) s = (err e, s)
pass_job (ok j) s = (ok tt, record s { events = s.events ++ job_updated s.info j ∷ [] })

unfoldable pub pass_event : Frame → Fields → Session → Done
pass_event frame fields t = (
  ok tt,
  record t { events = t.events ++ device_reported t.info (read_event frame t.info fields) ∷ [] },
)

-- `_handle_event`
unfoldable pub handle_event : Frame → Session → Done
unfolding decode_job pass_job pass_event
handle_event frame s =
    if nat frame.type == int EventType.job_update
    then pass_job (decode_job frame.payload) s
    else call (decode_tlv frame.payload) s >>= pass_event frame

-- The record of "<QIIHHHHHHIHH" and the data, and the credit that it uses up.
unfoldable pub take_media : Frame → Session → Session
take_media frame s = record s {
  media_credit =
      set s.media_credit (nat frame.channel)
        (get_or s.media_credit (nat frame.channel) 0 - length frame.payload);
  events =
      s.events
      ++ media_received s.info (record {
        channel = nat frame.channel;
        stream_id = nat frame.stream_id;
        frame_id = uint_at 4 8 frame.payload;
        monotonic_us = uint_at 8 0 frame.payload;
        dropped = uint_at 4 12 frame.payload;
        flags = uint_at 2 16 frame.payload;
        x = uint_at 2 20 frame.payload;
        y = uint_at 2 22 frame.payload;
        width = uint_at 2 24 frame.payload;
        height = uint_at 2 26 frame.payload;
        stride = uint_at 4 28 frame.payload;
        format = uint_at 2 32 frame.payload;
        quality = uint_at 2 34 frame.payload;
        bytes = drop 36 frame.payload;
      })
        ∷ [];
}

unfoldable pub refill_media : ℕ → Session → Done
unfolding grant_media_credit
refill_media channel t =
    if ltb (get_or t.media_credit channel 0) (64 * 1024)
    then grant_media_credit channel (128 * 1024) t
    else (ok tt, t)

-- `_handle_media`
unfoldable pub handle_media : Frame → Session → Done
unfolding take_media refill_media
handle_media frame s =
    if not (nat frame.type == int MediaType.data_frame) || ltb (length frame.payload) 36
    then (err invalid_media, s)
    else if not (length frame.payload == 36 + uint_at 2 18 frame.payload)
    then (err media_size_mismatch, s)
    else refill_media (nat frame.channel) (take_media frame s)
