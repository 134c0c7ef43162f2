-- ===== src/SystemUpdate/ChipModel.antt =====
-- A device for tests: it answers, or is late for a while.
use esp_iris.Common.{
  ℕ, zero, suc, ◌+◌, ◌==◌, ltb, if◌then◌else◌, List, [], ◌∷◌, ◌++◌, length, take, drop, ok, err,
  pos, to_le, uint_at,
}
use esp_iris.Wire.Codes.Enum.{int}
use esp_iris.Wire.Codes.Transport.{Channel, channel_enum}
use esp_iris.Wire.Codes.Services.{SystemUpdateType, system_update_type_enum}
use esp_iris.Wire.Frame.{Frame}
use esp_iris.Exchange.{Request, Device, Outcome, Fault, timed_out, request_refused}

pub record Chip : Type 0 where
  pub complete : List (List ℕ)
  pub current : List ℕ
  pub active : ℕ
  pub late : ℕ

abbrev pub complete_of : Chip → List (List ℕ)
complete_of d = d.complete

abbrev pub current_of : Chip → List ℕ
current_of d = d.current

abbrev pub late_of : Chip → ℕ
late_of d = d.late

abbrev pub respond : SystemUpdateType → List ℕ → Frame
respond type payload = record {
  channel = pos (int Channel.system_update);
  type = pos (int type);
  flags = pos 0;
  session_id = pos 0;
  request_id = pos 0;
  stream_id = pos 0;
  sequence = pos 0;
  payload = payload;
}

-- The operation that the tests name.
abbrev pub operation : List ℕ
operation = 1 ∷ 2 ∷ 3 ∷ 4 ∷ 5 ∷ 6 ∷ 7 ∷ 8 ∷ 9 ∷ 10 ∷ 11 ∷ 12 ∷ 13 ∷ 14 ∷ 15 ∷ 16 ∷ []

-- The answer to a DATA behind which there are the bytes.
abbrev pub after_data : ℕ → List ℕ → Chip → Outcome Fault Chip Frame
after_data zero bytes d = (
  ok (
      respond SystemUpdateType.data_response
        (operation ++ d.active ∷ 0 ∷ 0 ∷ 0 ∷ to_le 4 (length bytes))),
  record d { current = bytes },
)
after_data (suc n) bytes d = (err timed_out, record d { current = bytes; late = n })

abbrev pub take_data : Request → Chip → Outcome Fault Chip Frame
take_data request d =
    if ltb (length (d.current ++ drop 24 request.payload)) 256
    then after_data d.late (d.current ++ drop 24 request.payload) d
    else (err request_refused, d)

abbrev pub tell : Chip → Outcome Fault Chip Frame
tell d =
    if ltb (length d.current) 256
    then (
      ok (
          respond SystemUpdateType.status_response (
            operation
            ++ (1 ∷ 0 ∷ 0 ∷ 0 ∷ 2 ∷ 2 ∷ 0 ∷ d.active ∷ to_le 4 (length d.current)
                ++ 0 ∷ 0 ∷ 0 ∷ 0 ∷ 0 ∷ 0 ∷ 0 ∷ 0 ∷ []))),
      d,
    )
    else (err request_refused, d)

unfoldable pub chip : Device Chip
chip request d =
    if request.type == int SystemUpdateType.begin
    then (
      ok (
          respond SystemUpdateType.begin_response
            (operation ++ 1 ∷ 0 ∷ 0 ∷ 0 ∷ 2 ∷ 0 ∷ uint_at 1 20 request.payload ∷ 0 ∷ [])),
      record d { complete = [] },
    )
    else if request.type == int SystemUpdateType.component_begin
    then (
      ok (
          respond SystemUpdateType.component_begin_response (
            operation
            ++ (take 2 (drop 16 request.payload) ++ 2 ∷ 0 ∷ take 4 (drop 24 request.payload)))),
      record d { current = []; active = uint_at 1 16 request.payload },
    )
    else if request.type == int SystemUpdateType.data_frame
    then take_data request d
    else if request.type == int SystemUpdateType.component_end
    then (
      ok (
          respond SystemUpdateType.component_end_response
            (operation ++ d.active ∷ (length d.complete + 1) ∷ 0 ∷ 0 ∷ 0 ∷ 0 ∷ 0 ∷ 0 ∷ [])),
      record d { complete = d.complete ++ d.current ∷ [] },
    )
    else if request.type == int SystemUpdateType.status
    then tell d
    else if request.type == int SystemUpdateType.commit
    then (
      ok (
          respond SystemUpdateType.commit_response
            (operation ++ 1 ∷ 0 ∷ 0 ∷ 0 ∷ 0 ∷ 0 ∷ 0 ∷ 0 ∷ [])),
      d,
    )
    else (err request_refused, d)
