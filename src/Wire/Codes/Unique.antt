-- ===== src/Wire/Codes/Unique.antt =====
-- The enumerations as tables: no two members share a value, and every value fits its place on the wire.
use esp_iris.Common.{
  some-injective, ℕ, ◌^◌, ◌<◌, ◌≡◌, sym, ap, ◌∙◌, List, [], ◌∷◌, some, arith, ==_eq, ==_ne,
}
use native.Mathlib.Decide.{ℕ_discrete}
use esp_iris.Wire.Codes.Enum.{IntEnum, of_code, int, from_int}
use esp_iris.Wire.Codes.Transport.{
  Channel, Transport, Capability, ControlType, channel_enum, transport_enum, capability_enum,
  control_type_enum,
}
use esp_iris.Wire.Codes.Services.{
  EventType, CrashType, MediaType, OtaType, SystemUpdateType, JobState, event_type_enum,
  crash_type_enum, media_type_enum, ota_type_enum, system_update_type_enum, job_state_enum,
}
use esp_iris.Wire.Codes.Files.{FileType, FileStatus, file_type_enum, file_status_enum}
use esp_iris.Wire.Codes.Tags.{TlvTag, tlv_tag_enum}

-- Equal values are values of one member.
int-injective : {A : Type 0} ⦃e : IntEnum A⦄ (a b : A) → int a ≡ int b → a ≡ b
int-injective ⦃e⦄ a b h =
    some-injective (sym (e.distinct a) ∙ ap (of_code e.code e.members) h ∙ e.distinct b)

of_code_sound :
    {A : Type 0} (code : A → ℕ) (members : List A) (n : ℕ) (a : A)
    → of_code code members n ≡ some a
    → code a ≡ n
unfolding of_code
of_code_sound code [] n a h = absurd (cc)
of_code_sound code (m ∷ members) n a h = elim (ℕ_discrete (code m) n) [
  | yes hit ↦ ap code (sym (some-injective (rw (==_eq (code m) n hit) at h))) ∙ hit
  | no miss ↦ of_code_sound code members n a (rw (==_ne (code m) n miss) at h)
]

-- The member that `Enum(value)` finds has the value.
pub from_int_sound : {A : Type 0} ⦃e : IntEnum A⦄ (n : ℕ) (a : A) → from_int n ≡ some a → int a ≡ n
unfolding from_int
from_int_sound ⦃e⦄ n a h = of_code_sound e.code e.members n a h

-- Distinct members have distinct values, and every value is below a limit.
pub IsTable : (A : Type 0) ⦃e : IntEnum A⦄ → ℕ → Type 0
IsTable A limit = ((a b : A) → int a ≡ int b → a ≡ b) × ((a : A) → int a < limit)

channel-lt : (a : Channel) → int a < 10
channel-lt a = ground arith

transport-lt : (a : Transport) → int a < 256
transport-lt a = ground arith

capability-lt : (a : Capability) → int a < 2 ^ 64
capability-lt a = ground arith

control_type-lt : (a : ControlType) → int a < 256
control_type-lt a = ground arith

event_type-lt : (a : EventType) → int a < 256
event_type-lt a = ground arith

crash_type-lt : (a : CrashType) → int a < 256
crash_type-lt a = ground arith

media_type-lt : (a : MediaType) → int a < 256
media_type-lt a = ground arith

ota_type-lt : (a : OtaType) → int a < 256
ota_type-lt a = ground arith

system_update_type-lt : (a : SystemUpdateType) → int a < 256
system_update_type-lt a = ground arith

job_state-lt : (a : JobState) → int a < 256
job_state-lt a = ground arith

file_type-lt : (a : FileType) → int a < 256
file_type-lt a = ground arith

file_status-lt : (a : FileStatus) → int a < 256
file_status-lt a = ground arith

tlv_tag-lt : (a : TlvTag) → int a < 256
tlv_tag-lt a = ground arith

table : {A : Type 0} ⦃e : IntEnum A⦄ (limit : ℕ) → ((a : A) → int a < limit) → IsTable A limit
unfolding IsTable
table limit h = (int-injective, h)

-- In each enumeration of the protocol, distinct members have distinct values; channels are below 10,
-- capability bits fit the 64-bit field, and message types, states and tags fit a byte.
pub codes_IsTable :
    IsTable Channel 10
    × IsTable Transport 256
    × IsTable Capability (2 ^ 64)
    × IsTable ControlType 256
    × IsTable EventType 256
    × IsTable CrashType 256
    × IsTable MediaType 256
    × IsTable OtaType 256
    × IsTable SystemUpdateType 256
    × IsTable JobState 256
    × IsTable FileType 256
    × IsTable FileStatus 256
    × IsTable TlvTag 256
codes_IsTable = (
  table 10 (λ a. channel-lt a),
  table 256 (λ a. transport-lt a),
  table (2 ^ 64) (λ a. capability-lt a),
  table 256 (λ a. control_type-lt a),
  table 256 (λ a. event_type-lt a),
  table 256 (λ a. crash_type-lt a),
  table 256 (λ a. media_type-lt a),
  table 256 (λ a. ota_type-lt a),
  table 256 (λ a. system_update_type-lt a),
  table 256 (λ a. job_state-lt a),
  table 256 (λ a. file_type-lt a),
  table 256 (λ a. file_status-lt a),
  table 256 (λ a. tlv_tag-lt a),
)
