-- ===== src/Wire/Codes/Services.antt =====
-- Enumerations of protocol.py: EventType, CrashType, MediaType, OtaType, SystemUpdateType, JobState.
-- The members DATA and OPEN are `data_frame` and `open_stream` here.
use esp_iris.Common.{ℕ, List, [], ◌∷◌, ◌≡◌, refl, some}
use esp_iris.Wire.Codes.Enum.{IntEnum, of_code}

pub data EventType : Type 0 where
  boot healthy planned_restart link_ready previous_boot_crash recovery_entered : EventType
  core_dump_available crash_loop_detected job_update ota_ready : EventType

pub data CrashType : Type 0 where
  metadata_request metadata_response read_request read_response : CrashType

pub data MediaType : Type 0 where
  open_stream opened read data_frame close mirror_start mirror_stop mirror_state : MediaType

pub data OtaType : Type 0 where
  begin begin_response data_frame data_response end end_response cancel status : OtaType

pub data SystemUpdateType : Type 0 where
  begin begin_response component_begin component_begin_response data_frame : SystemUpdateType
  data_response component_end component_end_response commit commit_response cancel :
      SystemUpdateType
  status status_response inventory inventory_response : SystemUpdateType

pub data JobState : Type 0 where
  queued running succeeded failed cancelled : JobState

abbrev pub event_type_code : EventType → ℕ
event_type_code EventType.boot = 0x01
event_type_code EventType.healthy = 0x03
event_type_code EventType.planned_restart = 0x04
event_type_code EventType.link_ready = 0x05
event_type_code EventType.previous_boot_crash = 0x06
event_type_code EventType.recovery_entered = 0x07
event_type_code EventType.core_dump_available = 0x08
event_type_code EventType.crash_loop_detected = 0x09
event_type_code EventType.job_update = 0x20
event_type_code EventType.ota_ready = 0x21

abbrev pub event_type_members : List EventType
event_type_members =
    EventType.boot ∷ EventType.healthy ∷ EventType.planned_restart ∷ EventType.link_ready
    ∷ EventType.previous_boot_crash ∷ EventType.recovery_entered ∷ EventType.core_dump_available
    ∷ EventType.crash_loop_detected ∷ EventType.job_update ∷ EventType.ota_ready ∷ []

pub event_type_distinct :
    (x : EventType) → of_code event_type_code event_type_members (event_type_code x) ≡ some x
unfolding of_code
event_type_distinct EventType.boot = refl
event_type_distinct _ = refl

instance abbrev pub event_type_enum : IntEnum EventType
event_type_enum = record {
  code = event_type_code;
  members = event_type_members;
  distinct = event_type_distinct;
}

abbrev pub crash_type_code : CrashType → ℕ
crash_type_code CrashType.metadata_request = 0x01
crash_type_code CrashType.metadata_response = 0x02
crash_type_code CrashType.read_request = 0x03
crash_type_code CrashType.read_response = 0x04

abbrev pub crash_type_members : List CrashType
crash_type_members =
    CrashType.metadata_request ∷ CrashType.metadata_response ∷ CrashType.read_request
    ∷ CrashType.read_response ∷ []

pub crash_type_distinct :
    (x : CrashType) → of_code crash_type_code crash_type_members (crash_type_code x) ≡ some x
unfolding of_code
crash_type_distinct CrashType.metadata_request = refl
crash_type_distinct _ = refl

instance abbrev pub crash_type_enum : IntEnum CrashType
crash_type_enum = record {
  code = crash_type_code;
  members = crash_type_members;
  distinct = crash_type_distinct;
}

abbrev pub media_type_code : MediaType → ℕ
media_type_code MediaType.open_stream = 0x01
media_type_code MediaType.opened = 0x02
media_type_code MediaType.read = 0x03
media_type_code MediaType.data_frame = 0x04
media_type_code MediaType.close = 0x05
media_type_code MediaType.mirror_start = 0x06
media_type_code MediaType.mirror_stop = 0x07
media_type_code MediaType.mirror_state = 0x08

abbrev pub media_type_members : List MediaType
media_type_members =
    MediaType.open_stream ∷ MediaType.opened ∷ MediaType.read ∷ MediaType.data_frame
    ∷ MediaType.close ∷ MediaType.mirror_start ∷ MediaType.mirror_stop ∷ MediaType.mirror_state ∷ []

pub media_type_distinct :
    (x : MediaType) → of_code media_type_code media_type_members (media_type_code x) ≡ some x
unfolding of_code
media_type_distinct MediaType.open_stream = refl
media_type_distinct _ = refl

instance abbrev pub media_type_enum : IntEnum MediaType
media_type_enum = record {
  code = media_type_code;
  members = media_type_members;
  distinct = media_type_distinct;
}

abbrev pub ota_type_code : OtaType → ℕ
ota_type_code OtaType.begin = 0x01
ota_type_code OtaType.begin_response = 0x02
ota_type_code OtaType.data_frame = 0x03
ota_type_code OtaType.data_response = 0x04
ota_type_code OtaType.end = 0x05
ota_type_code OtaType.end_response = 0x06
ota_type_code OtaType.cancel = 0x07
ota_type_code OtaType.status = 0x08

abbrev pub ota_type_members : List OtaType
ota_type_members =
    OtaType.begin ∷ OtaType.begin_response ∷ OtaType.data_frame ∷ OtaType.data_response
    ∷ OtaType.end ∷ OtaType.end_response ∷ OtaType.cancel ∷ OtaType.status ∷ []

pub ota_type_distinct :
    (x : OtaType) → of_code ota_type_code ota_type_members (ota_type_code x) ≡ some x
unfolding of_code
ota_type_distinct OtaType.begin = refl
ota_type_distinct _ = refl

instance abbrev pub ota_type_enum : IntEnum OtaType
ota_type_enum = record {
  code = ota_type_code;
  members = ota_type_members;
  distinct = ota_type_distinct;
}

abbrev pub system_update_type_code : SystemUpdateType → ℕ
system_update_type_code SystemUpdateType.begin = 0x01
system_update_type_code SystemUpdateType.begin_response = 0x02
system_update_type_code SystemUpdateType.component_begin = 0x03
system_update_type_code SystemUpdateType.component_begin_response = 0x04
system_update_type_code SystemUpdateType.data_frame = 0x05
system_update_type_code SystemUpdateType.data_response = 0x06
system_update_type_code SystemUpdateType.component_end = 0x07
system_update_type_code SystemUpdateType.component_end_response = 0x08
system_update_type_code SystemUpdateType.commit = 0x09
system_update_type_code SystemUpdateType.commit_response = 0x0a
system_update_type_code SystemUpdateType.cancel = 0x0b
system_update_type_code SystemUpdateType.status = 0x0c
system_update_type_code SystemUpdateType.status_response = 0x0d
system_update_type_code SystemUpdateType.inventory = 0x0e
system_update_type_code SystemUpdateType.inventory_response = 0x0f

abbrev pub system_update_type_members : List SystemUpdateType
system_update_type_members =
    SystemUpdateType.begin ∷ SystemUpdateType.begin_response ∷ SystemUpdateType.component_begin
    ∷ SystemUpdateType.component_begin_response ∷ SystemUpdateType.data_frame
    ∷ SystemUpdateType.data_response ∷ SystemUpdateType.component_end
    ∷ SystemUpdateType.component_end_response ∷ SystemUpdateType.commit
    ∷ SystemUpdateType.commit_response ∷ SystemUpdateType.cancel ∷ SystemUpdateType.status
    ∷ SystemUpdateType.status_response ∷ SystemUpdateType.inventory
    ∷ SystemUpdateType.inventory_response ∷ []

pub system_update_type_distinct :
    (x : SystemUpdateType)
    → of_code system_update_type_code system_update_type_members (system_update_type_code x)
      ≡ some x
unfolding of_code
system_update_type_distinct SystemUpdateType.begin = refl
system_update_type_distinct _ = refl

instance abbrev pub system_update_type_enum : IntEnum SystemUpdateType
system_update_type_enum = record {
  code = system_update_type_code;
  members = system_update_type_members;
  distinct = system_update_type_distinct;
}

abbrev pub job_state_code : JobState → ℕ
job_state_code JobState.queued = 0
job_state_code JobState.running = 1
job_state_code JobState.succeeded = 2
job_state_code JobState.failed = 3
job_state_code JobState.cancelled = 4

abbrev pub job_state_members : List JobState
job_state_members =
    JobState.queued ∷ JobState.running ∷ JobState.succeeded ∷ JobState.failed ∷ JobState.cancelled
    ∷ []

pub job_state_distinct :
    (x : JobState) → of_code job_state_code job_state_members (job_state_code x) ≡ some x
unfolding of_code
job_state_distinct JobState.queued = refl
job_state_distinct _ = refl

instance abbrev pub job_state_enum : IntEnum JobState
job_state_enum = record {
  code = job_state_code;
  members = job_state_members;
  distinct = job_state_distinct;
}
