-- ===== src/SystemUpdate/Status.antt =====
-- `decode_system_update_status`, `system_update_status` and `system_update_inventory` of
-- system_update_transport.py.
use esp_iris.Common.{
  ℕ, ◌/◌, ◌%◌, ◌==◌, ltb, not, ◌||◌, Bool, if◌then◌else◌, List, [], length, take, drop, Option,
  none, some, Result, ok, err, ◌>>◌, raise_if, uint_at, ℤ,
}
use esp_iris.Wire.Codes.Enum.{int}
use esp_iris.Wire.Codes.Transport.{Channel, Capability, channel_enum, capability_enum}
use esp_iris.Wire.Codes.Services.{SystemUpdateType, system_update_type_enum}
use esp_iris.Wire.Frame.{Frame}
use esp_iris.Session.Records.{signed32}
use esp_iris.Session.Probes.{hex}
use esp_iris.Exchange.{Request, Device, Talk, after, ask, type_of}
use esp_iris.SystemUpdate.Bundle.{
  UpdateError, fault, invalid_status, invalid_status_fields, unexpected_status, no_inventory,
  unexpected_inventory,
}

pub data Phase : Type 0 where
  idle prepared receiving component_verified committing committed cancelled failed : Phase

-- `phase_names`
abbrev pub phase_of : ℕ → Option Phase
phase_of n =
    if n == 0
    then some idle
    else if n == 1
    then some prepared
    else if n == 2
    then some receiving
    else if n == 3
    then some component_verified
    else if n == 4
    then some committing
    else if n == 5
    then some committed
    else if n == 6
    then some cancelled
    else if n == 7
    then some failed
    else none

pub record UpdateStatus : Type 0 where
  pub operation_id : List ℕ
  pub job_id : ℕ
  pub phase : Phase
  pub component_count : ℕ
  pub completed_components : ℕ
  pub active_component_id : ℕ
  pub bytes_received : ℕ
  pub bytes_total : ℕ
  pub result : ℤ

abbrev pub status_in : List ℕ → Option Phase → Result UpdateError UpdateStatus
status_in payload none = err invalid_status_fields
status_in payload (some phase) =
    if ltb (uint_at 1 21 payload) (uint_at 1 22 payload)
    then err invalid_status_fields
    else ok (record {
      operation_id = take 16 payload;
      job_id = uint_at 4 16 payload;
      phase = phase;
      component_count = uint_at 1 21 payload;
      completed_components = uint_at 1 22 payload;
      active_component_id = uint_at 1 23 payload;
      bytes_received = uint_at 4 24 payload;
      bytes_total = uint_at 4 28 payload;
      result = signed32 (uint_at 4 32 payload);
    })

-- `decode_system_update_status`; the operation is kept as the bytes that are shown in hexadecimal.
unfoldable pub decode_status : List ℕ → Result UpdateError UpdateStatus
decode_status payload =
    if length payload == 36
    then status_in payload (phase_of (uint_at 1 20 payload))
    else err invalid_status

unfoldable pub status_answer : Frame → Result UpdateError UpdateStatus
unfolding decode_status
status_answer frame = do
  raise_if (not (type_of frame == int SystemUpdateType.status_response)) unexpected_status
  decode_status frame.payload

pub record Inventory : Type 0 where
  pub flags : ℕ
  pub layout_version : ℕ
  pub bootloader_sha256 : List ℕ
  pub partition_table_sha256 : List ℕ
  pub last_operation_id : List ℕ
  pub last_result : ℤ

-- `... if flags & (1 << n) else ""`
abbrev pub shown_if : ℕ → ℕ → List ℕ → List ℕ
shown_if flags bit text = if (flags / bit) % 2 == 1 then text else []

unfoldable pub inventory_answer : Frame → Result UpdateError Inventory
unfolding hex
inventory_answer frame = do
  raise_if
      (not (type_of frame == int SystemUpdateType.inventory_response)
        || not (length frame.payload == 92))
      unexpected_inventory
  let flags = uint_at 4 0 frame.payload
  ok (record {
    flags = flags;
    layout_version = uint_at 4 4 frame.payload;
    bootloader_sha256 = shown_if flags 1 (hex (take 32 (drop 8 frame.payload)));
    partition_table_sha256 = shown_if flags 2 (hex (take 32 (drop 40 frame.payload)));
    last_operation_id = shown_if flags 4 (hex (take 16 (drop 72 frame.payload)));
    last_result = signed32 (uint_at 4 88 frame.payload);
  })

-- A request on the channel of updates.
abbrev pub update_request : SystemUpdateType → List ℕ → Request
update_request type payload = record {
  channel = int Channel.system_update;
  type = int type;
  payload = payload;
  stream_id = 0;
}

-- `info.capabilities & capability`, for a capability of one bit.
abbrev pub lacks : ℕ → ℕ → Bool
lacks capabilities capability = (capabilities / capability) % 2 == 0

module _ {D : Type 0} (device : Device D) where
  unfoldable pub ask_update : SystemUpdateType → List ℕ → Talk UpdateError D Frame
  ask_update type payload = ask fault device (update_request type payload)

  -- `system_update_status`
  unfoldable pub update_status : Talk UpdateError D UpdateStatus
  unfolding ask_update status_answer
  update_status d =
      after (ask_update SystemUpdateType.status [] d) (λ frame d. (status_answer frame, d))

  -- `system_update_inventory`, over what `wait_ready` says of the capabilities.
  unfoldable pub update_inventory : Talk UpdateError D ℕ → Talk UpdateError D Inventory
  unfolding ask_update inventory_answer
  update_inventory wait_ready d = after (wait_ready d) (λ capabilities d.
      after (raise_if (lacks capabilities (int Capability.system_inventory)) no_inventory, d)
        (λ _ d.
          after (ask_update SystemUpdateType.inventory [] d)
            (λ frame d. (inventory_answer frame, d))))
