-- ===== src/Files/Writing.antt =====
-- The parts of `DeviceFiles.upload` in files.py: `_etag_value`, `write_status`,
-- `_reconcile_write_status`, and the transfer of one part with its second attempt.
use esp_iris.Common.{
  ℕ, zero, suc, ◌+◌, ◌-◌, ◌*◌, ◌==◌, leb, not, ◌&&◌, ◌||◌, Bool, if◌then◌else◌, List, [], ◌∷◌, ◌++◌,
  length, is_empty, Option, none, some, Result, ok, err, ◌>>=◌, ◌>>◌, raise_if, to_le, uint_at,
}
use esp_iris.Wire.Codes.Enum.{from_int}
use esp_iris.Wire.Codes.Files.{FileType, FileStatus, file_status_enum}
use esp_iris.Wire.Frame.{Frame}
use esp_iris.Exchange.{Device, Talk, Outcome, after, stream_of, timed_out}
use esp_iris.Files.Errors.{
  FileError, fault, file_service, unknown_result, invalid_etag, invalid_response, invalid_stream,
  invalid_write_status, invalid_ack, ack_not_recovered,
}
use esp_iris.Files.Answers.{checked, checked_exactly}
use esp_iris.Files.Methods.{ask_file}

-- `str.isspace` of one character.
abbrev pub is_space : ℕ → Bool
is_space c =
    (leb 9 c && leb c 13)
    || ((leb 28 c && leb c 32)
        || (c == 0x85
            || (c == 0xa0
                || (c == 0x1680
                    || ((leb 0x2000 c && leb c 0x200a)
                        || (c == 0x2028
                            || (c == 0x2029 || (c == 0x202f || (c == 0x205f || c == 0x3000)))))))))

-- `text.strip(...)` of the characters that pass a test.
unfoldable pub strip_left : (ℕ → Bool) → List ℕ → List ℕ
strip_left test [] = []
strip_left test (c ∷ text) = if test c then strip_left test text else c ∷ text

-- A text without the characters at its end that pass a test.
unfoldable pub strip_right : (ℕ → Bool) → List ℕ → List ℕ
strip_right test [] = []
strip_right test (c ∷ text) =
    let rest = strip_right test text in if is_empty rest && test c then [] else c ∷ rest

unfoldable pub strip : (ℕ → Bool) → List ℕ → List ℕ
unfolding strip_left strip_right
strip test text = strip_right test (strip_left test text)

-- `remove_prefix(text, "W/")`
unfoldable pub without_weak : List ℕ → List ℕ
without_weak (c ∷ d ∷ text) = if c == b'W' && d == b'/' then text else c ∷ d ∷ text
without_weak text = text

-- The value of a hexadecimal digit.
unfoldable pub digit_value : ℕ → Option ℕ
digit_value c =
    if leb b'0' c && leb c b'9'
    then some (c - b'0')
    else if leb b'a' c && leb c b'f'
    then some (c - b'a' + 10)
    else if leb b'A' c && leb c b'F'
    then some (c - b'A' + 10)
    else none

abbrev pub push_digit : ℕ → Option ℕ → Option ℕ
push_digit value none = none
push_digit value (some digit) = some (16 * value + digit)

-- `int(text, 16)` of hexadecimal digits, from the value of those before.
unfoldable pub hex_value : Option ℕ → List ℕ → Option ℕ
unfolding digit_value
hex_value value [] = value
hex_value none (c ∷ text) = none
hex_value (some value) (c ∷ text) = hex_value (push_digit value (digit_value c)) text

abbrev pub etag_of : Option ℕ → Result FileError ℕ
etag_of none = err invalid_etag
etag_of (some value) = ok value

unfoldable pub normalized_etag : List ℕ → List ℕ
unfolding strip without_weak
normalized_etag value = strip (λ c. c == b'"') (without_weak (strip is_space value))

-- `_etag_value`
unfoldable pub etag_value : Option (List ℕ) → Result FileError ℕ
unfolding normalized_etag hex_value
etag_value none = ok 0
etag_value (some value) =
    if length (normalized_etag value) == 16
    then etag_of (hex_value (some 0) (normalized_etag value))
    else err invalid_etag

pub data WriteState : Type 0 where
  is_active is_committed is_aborted : WriteState

pub record WriteStatus : Type 0 where
  pub committed : ℕ
  pub expected : ℕ
  pub state : WriteState
  pub result : FileStatus

-- WRITE_ACTIVE, WRITE_COMMITTED, WRITE_ABORTED
abbrev pub write_state : ℕ → Option WriteState
write_state n =
    if n == 1
    then some is_active
    else if n == 2
    then some is_committed
    else if n == 3
    then some is_aborted
    else none

abbrev pub status_with : List ℕ → WriteState → Option FileStatus → Result FileError WriteStatus
status_with payload state none = err (unknown_result (uint_at 2 24 payload))
status_with payload state (some result) = ok (record {
  committed = uint_at 8 4 payload;
  expected = uint_at 8 12 payload;
  state = state;
  result = result;
})

unfoldable pub status_fields : List ℕ → Option WriteState → Result FileError WriteStatus
unfolding from_int
status_fields payload none = err invalid_write_status
status_fields payload (some state) =
    if not (uint_at 3 21 payload == 0) || not (uint_at 2 26 payload == 0)
    then err invalid_write_status
    else status_with payload state (from_int (uint_at 2 24 payload))

-- The answer to WRITE_STATUS.
unfoldable pub write_status_answer : ℕ → Frame → Result FileError WriteStatus
unfolding checked status_fields
write_status_answer stream_id frame = do
  payload ← checked frame FileType.write_status_response 28
  raise_if (not (length payload == 28) || not (stream_of frame == stream_id)) invalid_response
  status_fields payload (write_state (uint_at 1 20 payload))

-- What the answer to WRITE_OPEN says.
pub record WriteStream : Type 0 where
  pub stream_id : ℕ
  pub chunk_max : ℕ

unfoldable pub write_opened : Frame → Result FileError WriteStream
unfolding checked_exactly
write_opened frame = do
  payload ← checked_exactly frame FileType.write_opened 12
  raise_if
      (uint_at 4 4 payload == 0
        || (not (stream_of frame == uint_at 4 4 payload)
            || (uint_at 2 8 payload == 0 || not (uint_at 2 10 payload == 0))))
      invalid_stream
  ok (record { stream_id = uint_at 4 4 payload; chunk_max = uint_at 2 8 payload })

-- The answer to WRITE, which names the bytes that the device has then.
unfoldable pub ack_answer : ℕ → ℕ → Frame → Result FileError (Unit {0})
unfolding checked
ack_answer stream_id target frame = do
  ack ← checked frame FileType.write_ack 12
  raise_if
      (not (length ack == 12)
        || (not (stream_of frame == stream_id) || not (uint_at 8 4 ack == target)))
      invalid_ack

module _ {D : Type 0} (device : Device D) where
  -- `write_status`
  unfoldable pub write_status : ℕ → Talk FileError D WriteStatus
  unfolding ask_file write_status_answer
  write_status stream_id d =
      after (ask_file device FileType.write_status [] stream_id d)
        (λ frame d. (write_status_answer stream_id frame, d))

  -- `except FileServiceError`: a device that is busy is asked again.
  abbrev pub unless_busy :
      Outcome FileError D WriteStatus
      → Talk FileError D WriteStatus
      → Outcome FileError D WriteStatus
  unless_busy (ok status, d) again = (ok status, d)
  unless_busy (err (file_service FileStatus.busy), d) again = again d
  unless_busy (err e, d) again = (err e, d)

  -- The loop of `_reconcile_write_status`, by the attempts that are left after this one.
  unfoldable pub reconcile_loop : ℕ → ℕ → Talk FileError D WriteStatus
  unfolding write_status
  reconcile_loop zero stream_id d = write_status stream_id d
  reconcile_loop (suc left) stream_id d =
      unless_busy (write_status stream_id d) (reconcile_loop left stream_id)

  abbrev pub reconcile_write_status : ℕ → Talk FileError D WriteStatus
  reconcile_write_status stream_id d = reconcile_loop 11 stream_id d

  -- One WRITE, "<QHH" and the part, and its acknowledgement.
  unfoldable pub write_once : ℕ → ℕ → List ℕ → Talk FileError D (Unit {0})
  unfolding ask_file ack_answer
  write_once stream_id committed part d =
      after
        (ask_file device FileType.write
          (to_le 8 committed ++ (to_le 2 (length part) ++ (to_le 2 0 ++ part))) stream_id d)
        (λ frame d. (ack_answer stream_id (committed + length part) frame, d))

  -- `except TimeoutError` of an attempt: the status decides, or the next attempt.
  abbrev pub recover :
      Bool
      → ℕ
      → ℕ
      → Outcome FileError D WriteStatus
      → Talk FileError D (Unit {0})
      → Outcome FileError D (Unit {0})
  recover is_first committed target (err e, d) again = (err e, d)
  recover is_first committed target (ok status, d) again =
      if status.committed == target
      then (ok tt, d)
      else if not (status.committed == committed) || not is_first
      then (err (fault timed_out), d)
      else again d

  abbrev pub on_timeout :
      Outcome FileError D (Unit {0}) → Talk FileError D (Unit {0}) → Outcome FileError D (Unit {0})
  on_timeout (ok _, d) otherwise = (ok tt, d)
  on_timeout (err (fault timed_out), d) otherwise = otherwise d
  on_timeout (err e, d) otherwise = (err e, d)

  -- `for attempt in range(2)`, by the list of what is left of it.
  unfoldable pub write_attempts : List ℕ → ℕ → ℕ → List ℕ → Talk FileError D (Unit {0})
  unfolding write_once reconcile_loop
  write_attempts [] stream_id committed part d = (err ack_not_recovered, d)
  write_attempts (attempt ∷ attempts) stream_id committed part d =
      on_timeout (write_once stream_id committed part d) (λ d.
        recover (attempt == 0) committed (committed + length part)
          (reconcile_write_status stream_id d) (write_attempts attempts stream_id committed part))

  unfoldable pub write_part : ℕ → ℕ → List ℕ → Talk FileError D (Unit {0})
  unfolding write_attempts
  write_part stream_id committed part d = write_attempts (0 ∷ 1 ∷ []) stream_id committed part d
