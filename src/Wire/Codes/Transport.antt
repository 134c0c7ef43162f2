-- ===== src/Wire/Codes/Transport.antt =====
-- Enumerations of protocol.py: Channel, Transport, Capability, ControlType.
use esp_iris.Common.{ℕ, ◌^◌, List, [], ◌∷◌, ◌≡◌, refl, some}
use esp_iris.Wire.Codes.Enum.{IntEnum, of_code}

pub data Channel : Type 0 where
  control log event screen image audio ota crash file system_update : Channel

pub data Transport : Type 0 where
  usb tcp usb_serial_jtag : Transport

pub data Capability : Type 0 where
  log event status time_sync screen ota crash auth rpc jobs image audio mirror file : Capability
  ota_project_name_match system_update system_inventory session_reopen crash_loop : Capability

pub data ControlType : Type 0 where
  hello hello_ack ping pong time_sync_request time_sync_response status_request : ControlType
  status_response credit request response cancel job_query job_status restart : ControlType
  auth_result error : ControlType

abbrev pub channel_code : Channel → ℕ
channel_code Channel.control = 0
channel_code Channel.log = 1
channel_code Channel.event = 2
channel_code Channel.screen = 3
channel_code Channel.image = 4
channel_code Channel.audio = 5
channel_code Channel.ota = 6
channel_code Channel.crash = 7
channel_code Channel.file = 8
channel_code Channel.system_update = 9

abbrev pub channel_members : List Channel
channel_members =
    Channel.control ∷ Channel.log ∷ Channel.event ∷ Channel.screen ∷ Channel.image ∷ Channel.audio
    ∷ Channel.ota ∷ Channel.crash ∷ Channel.file ∷ Channel.system_update ∷ []

pub channel_distinct :
    (x : Channel) → of_code channel_code channel_members (channel_code x) ≡ some x
unfolding of_code
channel_distinct Channel.control = refl
channel_distinct _ = refl

instance abbrev pub channel_enum : IntEnum Channel
channel_enum = record {
  code = channel_code;
  members = channel_members;
  distinct = channel_distinct;
}

abbrev pub transport_code : Transport → ℕ
transport_code Transport.usb = 1
transport_code Transport.tcp = 2
transport_code Transport.usb_serial_jtag = 3

abbrev pub transport_members : List Transport
transport_members = Transport.usb ∷ Transport.tcp ∷ Transport.usb_serial_jtag ∷ []

pub transport_distinct :
    (x : Transport) → of_code transport_code transport_members (transport_code x) ≡ some x
unfolding of_code
transport_distinct Transport.usb = refl
transport_distinct _ = refl

instance abbrev pub transport_enum : IntEnum Transport
transport_enum = record {
  code = transport_code;
  members = transport_members;
  distinct = transport_distinct;
}

abbrev pub capability_code : Capability → ℕ
capability_code Capability.log = 2 ^ 0
capability_code Capability.event = 2 ^ 1
capability_code Capability.status = 2 ^ 2
capability_code Capability.time_sync = 2 ^ 3
capability_code Capability.screen = 2 ^ 4
capability_code Capability.ota = 2 ^ 5
capability_code Capability.crash = 2 ^ 6
capability_code Capability.auth = 2 ^ 7
capability_code Capability.rpc = 2 ^ 8
capability_code Capability.jobs = 2 ^ 9
capability_code Capability.image = 2 ^ 10
capability_code Capability.audio = 2 ^ 11
capability_code Capability.mirror = 2 ^ 12
capability_code Capability.file = 2 ^ 13
capability_code Capability.ota_project_name_match = 2 ^ 14
capability_code Capability.system_update = 2 ^ 15
capability_code Capability.system_inventory = 2 ^ 16
capability_code Capability.session_reopen = 2 ^ 17
capability_code Capability.crash_loop = 2 ^ 18

abbrev pub capability_members : List Capability
capability_members =
    Capability.log ∷ Capability.event ∷ Capability.status ∷ Capability.time_sync ∷ Capability.screen
    ∷ Capability.ota ∷ Capability.crash ∷ Capability.auth ∷ Capability.rpc ∷ Capability.jobs
    ∷ Capability.image ∷ Capability.audio ∷ Capability.mirror ∷ Capability.file
    ∷ Capability.ota_project_name_match ∷ Capability.system_update ∷ Capability.system_inventory
    ∷ Capability.session_reopen ∷ Capability.crash_loop ∷ []

pub capability_distinct :
    (x : Capability) → of_code capability_code capability_members (capability_code x) ≡ some x
unfolding of_code
capability_distinct Capability.log = refl
capability_distinct _ = refl

instance abbrev pub capability_enum : IntEnum Capability
capability_enum = record {
  code = capability_code;
  members = capability_members;
  distinct = capability_distinct;
}

abbrev pub control_type_code : ControlType → ℕ
control_type_code ControlType.hello = 0x01
control_type_code ControlType.hello_ack = 0x02
control_type_code ControlType.ping = 0x03
control_type_code ControlType.pong = 0x04
control_type_code ControlType.time_sync_request = 0x05
control_type_code ControlType.time_sync_response = 0x06
control_type_code ControlType.status_request = 0x07
control_type_code ControlType.status_response = 0x08
control_type_code ControlType.credit = 0x09
control_type_code ControlType.request = 0x10
control_type_code ControlType.response = 0x11
control_type_code ControlType.cancel = 0x12
control_type_code ControlType.job_query = 0x13
control_type_code ControlType.job_status = 0x14
control_type_code ControlType.restart = 0x15
control_type_code ControlType.auth_result = 0x16
control_type_code ControlType.error = 0x7f

abbrev pub control_type_members : List ControlType
control_type_members =
    ControlType.hello ∷ ControlType.hello_ack ∷ ControlType.ping ∷ ControlType.pong
    ∷ ControlType.time_sync_request ∷ ControlType.time_sync_response ∷ ControlType.status_request
    ∷ ControlType.status_response ∷ ControlType.credit ∷ ControlType.request ∷ ControlType.response
    ∷ ControlType.cancel ∷ ControlType.job_query ∷ ControlType.job_status ∷ ControlType.restart
    ∷ ControlType.auth_result ∷ ControlType.error ∷ []

pub control_type_distinct :
    (x : ControlType)
    → of_code control_type_code control_type_members (control_type_code x) ≡ some x
unfolding of_code
control_type_distinct ControlType.hello = refl
control_type_distinct _ = refl

instance abbrev pub control_type_enum : IntEnum ControlType
control_type_enum = record {
  code = control_type_code;
  members = control_type_members;
  distinct = control_type_distinct;
}
