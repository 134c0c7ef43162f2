-- ===== src/Session/Tests.antt =====
-- The session on concrete frames.
use esp_iris.Common.{
  false, drop, take, ℕ, ◌+◌, ◌^◌, ◌%◌, ◌≤◌, ◌<◌, ◌≡◌, ◌≢◌, ◌*◌, ◌↔◌, refl, arith, max, true, List,
  [], ◌∷◌, ◌++◌, length, All, IsByte, none, some, ok, pos, replicate, nat_eq, lookup,
}
use esp_iris.Wire.Frame.{Frame}
use esp_iris.Wire.Tlv.{Fields, tlv_u8, tlv_u16, tlv_u32, tlv_u64}
use esp_iris.Session.State.{DeviceInfo, Session, normal, new_session}
use esp_iris.Session.Info.{
  read_info, hello_info, check_hello, check_identity, check_lengths, check_short, firmware_role,
  wrong_length,
}
use esp_iris.Session.Receive.{handle_frame, is_newer}
use esp_iris.Session.Records.{handle_log, handle_media}
use esp_iris.Session.Requests.{
  Description, Answer, encode_media_description, decode_media_description, rpc, rpc_request,
  rpc_response, read_screen, take_chunk, opened_screen, screenshot,
}
use esp_iris.Session.Descriptions.{decode-encode_media_description}
use esp_iris.Wire.Codes.Enum.{int}
use esp_iris.Wire.Codes.Services.{MediaType, media_type_enum}
use esp_iris.Session.Answers.{ShowsScreen, screenshot_lem}
use esp_iris.Session.Probes.{read_crash_report, hex, starts_with}
use esp_iris.Wire.Codes.Tags.{TlvTag, tlv_tag_code}
use esp_iris.Session.Identifiers.{drawn, drawn-differ}
use esp_iris.Session.Replay.{is_newer_iff, repeat_dropped}
use esp_iris.Session.Sending.{CanSend}
use esp_iris.Session.Credit.{handle_log-credit, handle_media-credit, credit_of}
use esp_iris.Session.Identity.{handle_frame-SameDevice}
use esp_iris.Session.Adoption.{Continues}

-- A HELLO with a hardware address.
abbrev hello_fields : Fields
hello_fields =
    (1, 0x45 ∷ 0x53 ∷ 0x50 ∷ 0x2d ∷ 0x49 ∷ 0x52 ∷ 0x49 ∷ 0x53 ∷ 1 ∷ 0 ∷ 9 ∷ 8 ∷ 7 ∷ 6 ∷ 5 ∷ 4 ∷ [])
    ∷ (4, 1 ∷ 0 ∷ [])
    ∷ (0x0e, 1 ∷ [])
    ∷ (0x16, 9 ∷ 8 ∷ 7 ∷ 6 ∷ 5 ∷ 4 ∷ [])
    ∷ []

abbrev device : DeviceInfo
device = hello_info hello_fields 77 normal

abbrev ready_session : Session
ready_session = record (new_session none) {
  info = some device;
  ready_announced = true;
  log_credit = 262144;
}

abbrev log_frame : Frame
log_frame = record {
  channel = pos 1;
  type = pos 1;
  flags = pos 0;
  session_id = pos 77;
  request_id = pos 0;
  stream_id = pos 0;
  sequence = pos 5;
  payload = replicate 14 0 ++ 2 ∷ 0 ∷ 0x68 ∷ 0x69 ∷ [];
}

abbrev media_frame : Frame
media_frame = record log_frame {
  channel = pos 3;
  type = pos 4;
  payload = replicate 18 0 ++ 1 ∷ 0 ∷ replicate 16 0 ++ 7 ∷ [];
}

drawn-differ_example :
    (0 < drawn 4294967295 1)
    × (drawn 4294967295 1 < 2 ^ 32)
    × (drawn 4294967295 1 ≢ drawn 4294967295 3)
drawn-differ_example = drawn-differ 4294967295 0 2 (omega arith) (omega arith) (omega arith)

can_send :
    (a b c d e f g h : ℕ)
    → All IsByte (a ∷ b ∷ c ∷ d ∷ e ∷ f ∷ g ∷ h ∷ [])
    → CanSend 0 9 (a ∷ b ∷ c ∷ d ∷ e ∷ f ∷ g ∷ h ∷ []) 0 0 0 ready_session
can_send a b c d e f g h bytes = record {
  channel_lt = omega arith;
  type_lt = omega arith;
  payload_short = omega arith;
  payload_bytes = bytes;
  flags_lt = omega arith;
  request_id_lt = omega arith;
  stream_id_lt = omega arith;
  session_lt = omega arith;
  last_lt = omega arith;
}

grant_log : CanSend 0 9 (1 ∷ 0 ∷ 0 ∷ 0 ∷ 0 ∷ 0 ∷ 4 ∷ 0 ∷ []) 0 0 0 ready_session
grant_log = can_send 1 0 0 0 0 0 4 0 (ground arith)

grant_screen : CanSend 0 9 (3 ∷ 0 ∷ 0 ∷ 0 ∷ 0 ∷ 0 ∷ 2 ∷ 0 ∷ []) 0 0 0 ready_session
grant_screen = can_send 3 0 0 0 0 0 2 0 (ground arith)

is_newer_iff_example : (is_newer (some 4294967295) 3 ≡ true) ↔ (
    (distance : ℕ) × (0 < distance) × (distance < 2 ^ 31) × (3 ≡ (4294967295 + distance) % 2 ^ 32))
is_newer_iff_example = is_newer_iff 4294967295 3 (omega arith) (omega arith)

repeat_dropped_example :
    handle_frame
      (λ key message. [])
      []
      log_frame
      (handle_frame (λ key message. []) [] log_frame ready_session).1
    ≡ (ok tt, (handle_frame (λ key message. []) [] log_frame ready_session).1)
repeat_dropped_example =
    repeat_dropped (λ key message. []) [] log_frame ready_session refl (omega arith) (omega arith)

handle_log-credit_example :
    (t : Session) × (handle_log log_frame.payload ready_session ≡ (ok tt, t))
    × (128 * 1024 ≤ t.log_credit)
    × (t.log_credit < max (ready_session.log_credit + 1) (384 * 1024))
handle_log-credit_example =
    handle_log-credit log_frame.payload ready_session (omega arith) refl grant_log

handle_media-credit_example :
    (t : Session) × (handle_media media_frame ready_session ≡ (ok tt, t))
    × (64 * 1024 ≤ credit_of t 3)
    × (credit_of t 3 < max (credit_of ready_session 3 + 1) (192 * 1024))
    × ((j : ℕ) → j ≢ 3 → credit_of t j ≡ credit_of ready_session j)
handle_media-credit_example =
    handle_media-credit media_frame ready_session refl (omega arith) refl (omega arith) grant_screen

handle_frame-SameDevice_example :
    (new : DeviceInfo) × ((handle_frame (λ key message. []) [] log_frame ready_session).1.info
      ≡ some new)
    × Continues device new none
handle_frame-SameDevice_example =
    handle_frame-SameDevice (λ key message. []) [] log_frame ready_session device refl

hello_read : read_info hello_fields 77 ≡ ok device
unfolding read_info check_hello check_identity check_lengths check_short firmware_role wrong_length
    lookup tlv_u8 tlv_u16 tlv_u32 tlv_u64
hello_read = refl

abbrev description : Description
description = record {
  x = pos 1;
  y = pos 2;
  width = pos 320;
  height = pos 240;
  stride = pos 640;
  format = pos 1;
  quality = pos 0;
}

abbrev description_bytes : List ℕ
description_bytes = 1 ∷ 0 ∷ 2 ∷ 0 ∷ 64 ∷ 1 ∷ 240 ∷ 0 ∷ 128 ∷ 2 ∷ 0 ∷ 0 ∷ 1 ∷ 0 ∷ 0 ∷ 0 ∷ []

description_encoded : encode_media_description description ≡ ok description_bytes
unfolding encode_media_description
description_encoded = refl

decode-encode_media_description_example :
    (length description_bytes ≡ 16) × (decode_media_description description_bytes ≡ ok description)
decode-encode_media_description_example =
    decode-encode_media_description description description_bytes description_encoded

-- A response of service 3, method 4, with one byte.
abbrev response_frame : Frame
response_frame = record log_frame {
  channel = pos 0;
  type = pos 17;
  payload = 3 ∷ 0 ∷ 4 ∷ 0 ∷ 0 ∷ 0 ∷ 0 ∷ 0 ∷ 1 ∷ 0 ∷ 0 ∷ 0 ∷ 9 ∷ [];
}

abbrev nine : List ℕ
nine = 9 ∷ []

abbrev answer_nine : List ℕ → Answer
answer_nine request = ok response_frame

rpc_answered : rpc 3 4 [] 1000 answer_nine ≡ ok nine
unfolding rpc rpc_request rpc_response
rpc_answered = refl

-- A screen of three bytes, in two chunks.
abbrev screen : List ℕ
screen = 7 ∷ 8 ∷ 9 ∷ []

abbrev opened_frame : Frame
opened_frame = record log_frame {
  channel = pos 3;
  type = pos (int MediaType.opened);
  payload = description_bytes ++ 3 ∷ 0 ∷ 0 ∷ 0 ∷ [];
}

abbrev chunk_at : ℕ → List ℕ → Frame
chunk_at offset chunk = record log_frame {
  channel = pos 3;
  type = pos (int MediaType.data_frame);
  payload = offset ∷ 0 ∷ 0 ∷ 0 ∷ 3 ∷ 0 ∷ 0 ∷ 0 ∷ chunk;
}

-- The last answer plays no part.
abbrev screen_answers : List Answer
screen_answers =
    ok (chunk_at 0 (7 ∷ 8 ∷ [])) ∷ ok (chunk_at 2 (9 ∷ [])) ∷ ok (chunk_at 0 (7 ∷ [])) ∷ []

abbrev open_screen : List ℕ → Answer
open_screen request = ok opened_frame

screenshot_run : screenshot description open_screen screen_answers ≡ ok (description, screen)
unfolding screenshot opened_screen read_screen take_chunk encode_media_description
    decode_media_description
screenshot_run = refl

opened-ShowsScreen : ShowsScreen screen opened_frame
opened-ShowsScreen = record { opens = λ t l. refl; shows = λ t l e. absurd (cc t) }

chunk-ShowsScreen :
    (offset : ℕ) (chunk : List ℕ)
    → chunk ≡ take (length chunk) (drop (offset + 0) screen)
    → ShowsScreen screen (chunk_at offset chunk)
chunk-ShowsScreen offset chunk h = record { opens = λ t l. absurd (cc t); shows = λ t l e. h }

screenshot_lem_example :
    (screen ≡ screen)
    × (count : ℕ) × (count ≤ length screen)
    × (screenshot description open_screen (take count screen_answers) ≡ ok (description, screen))
screenshot_lem_example =
    screenshot_lem screen description description open_screen screen_answers screen
      (λ request. opened-ShowsScreen)
      (
        chunk-ShowsScreen 0 (7 ∷ 8 ∷ []) refl,
        (chunk-ShowsScreen 2 (9 ∷ []) refl, (chunk-ShowsScreen 0 (7 ∷ []) refl, tt)),
      )
      screenshot_run

-- A crash report is fit for decoding only with the whole hash of this firmware.
abbrev crash_fields : Fields
crash_fields =
    (tlv_tag_code TlvTag.core_dump_elf_sha256, 0x61 ∷ 0x62 ∷ [])
    ∷ (tlv_tag_code TlvTag.core_dump_elf_sha256_complete, 1 ∷ [])
    ∷ []

eligible :
    (read_crash_report
      (record device { firmware_sha256 = 0xab ∷ 0xcd ∷ [] })
      crash_fields).decode_eligible
    ≡ true
unfolding read_crash_report lookup tlv_u8 hex starts_with
eligible = refl

other_firmware :
    (read_crash_report
      (record device { firmware_sha256 = 0xac ∷ 0xcd ∷ [] })
      crash_fields).decode_eligible
    ≡ false
unfolding read_crash_report lookup tlv_u8 hex starts_with
other_firmware = refl
