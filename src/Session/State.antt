-- ===== src/Session/State.antt =====
-- The state of `DeviceSession` in session.py, and its handlers as state passing: a handler takes the
-- session, and returns its value or what it raised, with the session as it is then. What the session
-- gives to the link and to the callbacks is appended to the session's own lists.
use esp_iris.Common.{ℕ, List, [], Option, none, Bool, false, Result, ok, err, replicate, ℤ}
use esp_iris.Wire.Error.{ProtocolError}
use esp_iris.Wire.Frame.{Frame}
use esp_iris.Wire.Stream.{FrameDecoder, new_decoder}
use esp_iris.StateMachine.{SessionState, StateTransitionError, negotiating}

pub data FirmwareMode : Type 0 where
  unknown normal recovery : FirmwareMode

-- `DeviceInfo`, with the texts and identifiers as the bytes that they are decoded from.
pub record DeviceInfo : Type 0 where
  pub device_id : List ℕ
  pub boot_id : ℕ
  pub session_id : ℕ
  pub transport : ℕ
  pub project_name : List ℕ
  pub app_version : List ℕ
  pub idf_version : List ℕ
  pub firmware_sha256 : List ℕ
  pub reset_reason : ℕ
  pub capabilities : ℕ
  pub auth_mode : ℕ
  pub max_payload : ℕ
  pub firmware_mode : FirmwareMode
  pub product_contract : List ℕ
  pub chip_target : List ℕ
  pub board_id : List ℕ
  pub layout_id : List ℕ
  pub recovery_abi : ℕ
  pub required_features : ℕ
  pub health_timeout_ms : ℕ
  pub hardware_mac : List ℕ

-- What a session raises: one constructor for each message.
pub data SessionError : Type 0 where
  protocol_error : ProtocolError → SessionError
  state_error : StateTransitionError → SessionError
  missing_device_id invalid_hardware_mac device_id_mismatch : SessionError
  unsupported_protocol unsupported_features unsupported_role unsupported_auth : ℕ → SessionError
  invalid_tag_length tag_too_long : ℕ → SessionError
  invalid_health_timeout identity_changed_in_reopen identity_changed : SessionError
  missing_challenge missing_token pairing_rejected no_info : SessionError
  short_log log_size_mismatch invalid_media media_size_mismatch : SessionError
  invalid_job_size job_reserved : SessionError
  not_ready connection_closed : SessionError

-- The `asyncio.Future` that a request waits for.
pub data Future : Type 0 where
  waiting : Future
  answered : Frame → Future
  device_error : ℕ → Future
  session_closed : Future

-- The result of `_decode_job`.
pub record Job : Type 0 where
  pub job_id : ℕ
  pub job_kind : ℕ
  pub job_state_code : ℕ
  pub cancel_requested : Bool
  pub progress_permille : ℕ
  pub result : ℤ

pub record DeviceEvent : Type 0 where
  pub event_type : ℕ
  pub boot_id : ℕ
  pub monotonic_us : ℕ
  pub reset_reason : ℕ
  pub crash_count : ℕ
  pub crash_limit : ℕ
  pub crash_recovery_pending : Bool
  pub crash_origin_reset_reason : ℕ
  pub crash_failed_app_address : ℕ
  pub crash_failed_firmware_sha256 : List ℕ
  pub crash_state_error : ℕ
  pub sequence : ℕ

pub record LogRecord : Type 0 where
  pub monotonic_us : ℕ
  pub dropped_bytes : ℕ
  pub is_stderr : Bool
  pub flags : ℕ
  pub text : List ℕ

pub record MediaData : Type 0 where
  pub channel : ℕ
  pub stream_id : ℕ
  pub frame_id : ℕ
  pub monotonic_us : ℕ
  pub dropped : ℕ
  pub flags : ℕ
  pub x : ℕ
  pub y : ℕ
  pub width : ℕ
  pub height : ℕ
  pub stride : ℕ
  pub format : ℕ
  pub quality : ℕ
  pub bytes : List ℕ

-- What is passed to `on_ready`, `on_event` and `on_media`, with the device that it comes from.
pub data Event : Type 0 where
  is_ready : Option DeviceInfo → Event
  logged : Option DeviceInfo → LogRecord → Event
  job_updated : Option DeviceInfo → Job → Event
  device_reported : Option DeviceInfo → DeviceEvent → Event
  media_received : Option DeviceInfo → MediaData → Event

pub record Session : Type 0 where
  pub info : Option DeviceInfo
  pub state : SessionState
  pub decoder : FrameDecoder
  pub pairing_token : Option (List ℕ)
  pub pending : List (ℕ × Future)
  pub request_id : ℕ
  pub reopen_session_id : Option ℕ
  pub reopen_requested : Bool
  pub sequence : List ℕ
  pub last_rx_sequence : List (Option ℕ)
  pub is_closed : Bool
  pub log_credit : ℕ
  pub ready_announced : Bool
  pub media_credit : List ℕ
  pub written : List (List ℕ)
  pub events : List Event

abbrev pub channel_count : ℕ
channel_count = 10

-- `DeviceSession.__init__`
abbrev pub new_session : Option (List ℕ) → Session
new_session pairing_token = record {
  info = none;
  state = negotiating;
  decoder = new_decoder;
  pairing_token = pairing_token;
  pending = [];
  request_id = 0;
  reopen_session_id = none;
  reopen_requested = false;
  sequence = replicate channel_count 0;
  last_rx_sequence = replicate channel_count none;
  is_closed = false;
  log_credit = 0;
  ready_announced = false;
  media_credit = replicate channel_count 0;
  written = [];
  events = [];
}

-- What a handler leaves: its value or exception, and the session.
abbrev pub Outcome : Type 0 → Type 0
Outcome A = Result SessionError A × Session

abbrev pub Done : Type 0
Done = Outcome (Unit {0})

infixl 5 ◌>>=◌ ◌>>◌
abbrev pub ◌>>=◌ : {A B : Type 0} → Outcome A → (A → Session → Outcome B) → Outcome B
(ok a, s) >>= f = f a s
(err e, s) >>= f = (err e, s)

-- The next statement, on the session that the first one leaves.
abbrev pub ◌>>◌ : {B : Type 0} → Done → (Session → Outcome B) → Outcome B
(ok a, s) >> k = k s
(err e, s) >> k = (err e, s)

-- A call of protocol.py: its exceptions pass through.
abbrev pub call : {A : Type 0} → Result ProtocolError A → Session → Outcome A
call (ok a) s = (ok a, s)
call (err e) s = (err (protocol_error e), s)
