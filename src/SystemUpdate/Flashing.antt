-- ===== src/SystemUpdate/Flashing.antt =====
-- What is assumed of a device that receives an update, and what its answers to DATA say.
use esp_iris.Common.{ℕ, ◌+◌, ◌≡◌, ◌≢◌, ◌⊎◌, true, List, [], ◌∷◌, ◌++◌, length, ok, arith, uint_at}
use esp_iris.Wire.Codes.Enum.{int}
use esp_iris.Wire.Codes.Services.{SystemUpdateType, system_update_type_enum}
use esp_iris.Wire.Frame.{Frame}
use esp_iris.Exchange.{Request, Device, type_of}
use esp_iris.SystemUpdate.Bundle.{Component, Bundle}
use esp_iris.SystemUpdate.Status.{UpdateStatus, update_request, status_answer}
use esp_iris.SystemUpdate.Transfer.{data_payload, data_answer, data_pending, is_receiving}

-- DATA and STATUS.
abbrev pub data_of : List ℕ → Component → ℕ → List ℕ → Request
data_of identifier c offset chunk =
    update_request SystemUpdateType.data_frame (data_payload identifier c offset chunk)

abbrev pub status_of : Request
status_of = update_request SystemUpdateType.status []

-- The requests that write.
abbrev pub IsPassive : Request → Type 0
IsPassive request =
    (request.type ≢ int SystemUpdateType.begin)
    × (request.type ≢ int SystemUpdateType.component_begin)
    × (request.type ≢ int SystemUpdateType.data_frame)
    × (request.type ≢ int SystemUpdateType.component_end)
    × (request.type ≢ int SystemUpdateType.cancel)

-- What is assumed of a device, by the components that it has complete and the bytes that it has of
-- the current one: BEGIN and COMPONENT_BEGIN that are accepted start with none; a DATA appends its
-- chunk or changes nothing, whether it is answered or not; its answer, and a status while receiving,
-- tell how many bytes there are; COMPONENT_END that is accepted completes the component; and other
-- requests, but CANCEL, change nothing.
pub record Flashes {D : Type 0} (device : Device D) (complete : D → List (List ℕ))
    (current : D → List ℕ) : Type 0 where
  pub begins :
      (payload identifier : List ℕ) (bundle : Bundle) (d : D) (frame : Frame) (d' : D)
      → device (update_request SystemUpdateType.begin payload) d ≡ (ok frame, d')
      → type_of frame ≡ int SystemUpdateType.begin_response
      → complete d' ≡ []
  pub opens :
      (payload : List ℕ) (d : D) (frame : Frame) (d' : D)
      → device (update_request SystemUpdateType.component_begin payload) d ≡ (ok frame, d')
      → type_of frame ≡ int SystemUpdateType.component_begin_response
      → (current d' ≡ []) × (complete d' ≡ complete d)
  pub writes :
      (identifier : List ℕ) (c : Component) (offset : ℕ) (chunk : List ℕ) (d : D)
      → length identifier ≡ 16
      → let d' = (device (data_of identifier c offset chunk) d).1 in
        (complete d' ≡ complete d) × ((current d' ≡ current d) ⊎ (current d' ≡ current d ++ chunk))
  pub acks :
      (identifier : List ℕ) (c : Component) (offset : ℕ) (chunk : List ℕ) (d : D) (frame : Frame)
      (d' : D)
      → device (data_of identifier c offset chunk) d ≡ (ok frame, d')
      → type_of frame ≡ int SystemUpdateType.data_response
      → uint_at 4 20 frame.payload ≡ length (current d')
  pub tells :
      (d : D) (frame : Frame) (status : UpdateStatus) (d' : D)
      → device status_of d ≡ (ok frame, d')
      → status_answer frame ≡ ok status
      → is_receiving status.phase ≡ true
      → status.bytes_received ≡ length (current d')
  pub ends :
      (payload : List ℕ) (d : D) (frame : Frame) (d' : D)
      → device (update_request SystemUpdateType.component_end payload) d ≡ (ok frame, d')
      → type_of frame ≡ int SystemUpdateType.component_end_response
      → complete d' ≡ complete d ++ current d ∷ []
  pub keeps :
      (request : Request) (d : D)
      → IsPassive request
      → (complete (device request d).1 ≡ complete d) × (current (device request d).1 ≡ current d)

-- A component whose size is that of its bytes.
abbrev pub IsWhole : Component → Type 0
IsWhole c = c.size ≡ length c.bytes

-- What the checks on the answers let through.
pub data_answer_lem :
    (identifier : List ℕ) (c : Component) (offset : ℕ) (chunk : List ℕ) (frame : Frame) (p n : ℕ)
    → data_answer identifier c offset chunk frame ≡ ok (p, n)
    → (type_of frame ≡ int SystemUpdateType.data_response)
      × (n ≡ uint_at 4 20 frame.payload)
      × (n ≡ offset + length chunk)
unfolding data_answer
data_answer_lem identifier c offset chunk frame p n h = ground (arith, h)

pub data_pending_lem :
    (identifier : List ℕ) (c : Component) (offset : ℕ) (chunk : List ℕ) (status : UpdateStatus)
    (n : ℕ)
    → data_pending identifier c offset chunk status ≡ ok n
    → (is_receiving status.phase ≡ true)
      × (n ≡ status.bytes_received)
      × ((n ≡ offset) ⊎ (n ≡ offset + length chunk))
unfolding data_pending
data_pending_lem identifier c offset chunk status n h = ground (arith, h)
