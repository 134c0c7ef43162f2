-- ===== src/SystemUpdate/Transfer.antt =====
-- The steps of `perform_system_update` in system_update_transport.py: BEGIN with its second attempt,
-- the transfer of one component, and COMMIT. The loop over a component's bytes may repeat a chunk for
-- ever, as long as its answer is late and the device has not received it: it takes fuel.
use esp_iris.Common.{
  ℕ, ◌+◌, ◌==◌, ltb, min, not, ◌||◌, Bool, true, false, if◌then◌else◌, List, ◌∷◌, ◌++◌, length,
  take, drop, Option, Result, ok, err, ◌>>◌, raise_if, to_le, uint_at, bytes_eq, ℤ, pos, negsuc,
}
use esp_iris.Wire.Codes.Enum.{int}
use esp_iris.Wire.Codes.Services.{SystemUpdateType, system_update_type_enum}
use esp_iris.Wire.Frame.{Frame}
use esp_iris.Session.Records.{signed32}
use esp_iris.Exchange.{Talk, Outcome, timed_out, type_of}
use esp_iris.SystemUpdate.Bundle.{
  Component, Bundle, kind_code, UpdateError, fault, too_large, struct_error, begin_timeout,
  unexpected_begin, invalid_begin, invalid_component, rejected_bounds, data_timeout, invalid_data,
  invalid_offset, unexpected_offset, invalid_end, commit_timeout, invalid_commit, update_failed,
}
use esp_iris.SystemUpdate.Status.{Phase, prepared, receiving, committed, UpdateStatus}

-- What is reported of the progress, as far as it counts.
pub record Progress : Type 0 where
  pub job_id : ℕ
  pub component_id : Option ℕ
  pub bytes_received : ℕ
  pub bytes_total : ℕ
  pub progress_permille : ℕ

-- The payload of BEGIN: the operation, "<HHBBH", the digest, the manifest and the signature.
unfoldable pub begin_payload : List ℕ → Bundle → Result UpdateError (List ℕ)
begin_payload identifier bundle = do
  raise_if (ltb 0xffff (length bundle.manifest_bytes) || ltb 0xffff (length bundle.signature))
      too_large
  raise_if (ltb 0xff (length bundle.components)) struct_error
  ok (
      identifier
      ++ (to_le 2 (length bundle.manifest_bytes)
          ++ (to_le 2 (length bundle.signature)
              ++ (to_le 1 (length bundle.components)
                  ++ (to_le 1 0
                      ++ (to_le 2 0
                          ++ (bundle.manifest_sha256
                              ++ (bundle.manifest_bytes ++ bundle.signature))))))))

-- What the answer to BEGIN says.
pub record Started : Type 0 where
  pub job_id : ℕ
  pub chunk_size : ℕ

unfoldable pub begin_answer : List ℕ → Bundle → Frame → Result UpdateError Started
begin_answer identifier bundle frame = do
  raise_if
      (not (type_of frame == int SystemUpdateType.begin_response)
        || not (length frame.payload == 24))
      unexpected_begin
  raise_if
      (not (bytes_eq (take 16 frame.payload) identifier)
        || (uint_at 4 16 frame.payload == 0
            || (uint_at 2 20 frame.payload == 0
                || not (uint_at 1 22 frame.payload == length bundle.components))))
      invalid_begin
  ok (record { job_id = uint_at 4 16 frame.payload; chunk_size = uint_at 2 20 frame.payload })

abbrev pub is_prepared : Phase → Bool
is_prepared prepared = true
is_prepared _ = false

abbrev pub is_receiving : Phase → Bool
is_receiving receiving = true
is_receiving _ = false

abbrev pub is_committed : Phase → Bool
is_committed committed = true
is_committed _ = false

abbrev pub is_zero : ℤ → Bool
is_zero (pos n) = n == 0
is_zero (negsuc n) = false

-- The status behind a BEGIN that was not answered in time.
unfoldable pub begin_pending : List ℕ → Bundle → UpdateStatus → Result UpdateError (Unit {0})
begin_pending identifier bundle status =
    raise_if
      (not (bytes_eq status.operation_id identifier)
        || (not (is_prepared status.phase)
            || (not (status.completed_components == 0)
                || (not (status.active_component_id == 0)
                    || not (status.component_count == length bundle.components)))))
      begin_timeout

-- The payload of COMPONENT_BEGIN, with "<HII" in it.
unfoldable pub descriptor : List ℕ → Component → Result UpdateError (List ℕ)
descriptor identifier c =
    if ltb 0xff c.id
      || (ltb 0xffff c.flags || (ltb 0xffffffff c.target_offset || ltb 0xffffffff c.size))
    then err struct_error
    else ok (
        identifier
        ++ (to_le 1 c.id
            ++ (to_le 1 (kind_code c.kind)
                ++ (to_le 2 c.flags ++ (to_le 4 c.target_offset ++ (to_le 4 c.size ++ c.sha256))))))

-- The answer to COMPONENT_BEGIN: the size of a chunk.
unfoldable pub component_answer : List ℕ → ℕ → Component → Frame → Result UpdateError ℕ
component_answer identifier chunk_size c frame = do
  raise_if
      (not (type_of frame == int SystemUpdateType.component_begin_response)
        || (not (length frame.payload == 24)
            || (not (bytes_eq (take 16 frame.payload) identifier)
                || (not (uint_at 1 16 frame.payload == c.id)
                    || not (uint_at 1 17 frame.payload == kind_code c.kind)))))
      invalid_component
  raise_if (uint_at 2 18 frame.payload == 0 || not (uint_at 4 20 frame.payload == c.size))
      rejected_bounds
  ok (min chunk_size (uint_at 2 18 frame.payload))

-- `component.data[offset : offset + effective_chunk]`
abbrev pub chunk_at : Component → ℕ → ℕ → List ℕ
chunk_at c chunk offset = take chunk (drop offset c.bytes)

-- The payload of DATA.
abbrev pub data_payload : List ℕ → Component → ℕ → List ℕ → List ℕ
data_payload identifier c offset chunk =
    identifier ++ (to_le 1 c.id ++ (0 ∷ 0 ∷ 0 ∷ to_le 4 offset ++ chunk))

-- The answer to DATA: the progress, and the bytes that the device has then.
unfoldable pub data_answer : List ℕ → Component → ℕ → List ℕ → Frame → Result UpdateError (ℕ × ℕ)
data_answer identifier c offset chunk frame = do
  raise_if
      (not (type_of frame == int SystemUpdateType.data_response)
        || (not (length frame.payload == 24)
            || (not (bytes_eq (take 16 frame.payload) identifier)
                || (not (uint_at 1 16 frame.payload == c.id)
                    || not (uint_at 1 17 frame.payload == 0)))))
      invalid_data
  raise_if (not (uint_at 4 20 frame.payload == offset + length chunk)) invalid_offset
  ok (uint_at 2 18 frame.payload, uint_at 4 20 frame.payload)

-- The status behind a DATA that was not answered in time: where to go on.
unfoldable pub data_pending : List ℕ → Component → ℕ → List ℕ → UpdateStatus → Result UpdateError ℕ
data_pending identifier c offset chunk status = do
  raise_if
      (not (bytes_eq status.operation_id identifier)
        || (not (status.active_component_id == c.id) || not (is_receiving status.phase)))
      data_timeout
  raise_if (not (status.bytes_received == offset || status.bytes_received == offset + length chunk))
      (unexpected_offset status.bytes_received)
  ok status.bytes_received

-- The answer to COMPONENT_END for the component of an index.
unfoldable pub end_answer : List ℕ → ℕ → Component → Frame → Result UpdateError (Unit {0})
end_answer identifier index c frame =
    raise_if
      (not (type_of frame == int SystemUpdateType.component_end_response)
        || (not (length frame.payload == 24)
            || (not (bytes_eq (take 16 frame.payload) identifier)
                || (not (uint_at 1 16 frame.payload == c.id)
                    || (not (uint_at 1 17 frame.payload == index + 1)
                        || not (uint_at 4 20 frame.payload == 0))))))
      invalid_end

-- The status behind a COMMIT that was not answered in time.
unfoldable pub commit_pending : List ℕ → UpdateStatus → Result UpdateError (Unit {0})
commit_pending identifier status =
    raise_if
      (not (bytes_eq status.operation_id identifier)
        || (not (is_committed status.phase) || not (is_zero status.result)))
      commit_timeout

-- The answer to COMMIT.
unfoldable pub commit_answer : List ℕ → ℕ → Frame → Result UpdateError (Unit {0})
commit_answer identifier job_id frame = do
  raise_if
      (not (type_of frame == int SystemUpdateType.commit_response)
        || (not (length frame.payload == 24) || not (bytes_eq (take 16 frame.payload) identifier)))
      invalid_commit
  raise_if (not (uint_at 4 16 frame.payload == job_id) || not (uint_at 4 20 frame.payload == 0))
      (update_failed (signed32 (uint_at 4 20 frame.payload)))

-- `except TimeoutError` around a request.
abbrev pub on_timeout :
    {D A : Type 0} → Outcome UpdateError D A → Talk UpdateError D A → Outcome UpdateError D A
on_timeout (ok a, d) otherwise = (ok a, d)
on_timeout (err (fault timed_out), d) otherwise = otherwise d
on_timeout (err e, d) otherwise = (err e, d)
