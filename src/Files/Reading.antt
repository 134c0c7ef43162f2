-- ===== src/Files/Reading.antt =====
-- `DeviceFiles.read_chunks` of files.py, read to its end: the chunks that it yields, and how it ends.
use esp_iris.Common.{
  ℕ, zero, suc, ◌+◌, ◌-◌, ◌==◌, ltb, min, not, ◌||◌, true, false, if◌then◌else◌, List, [], ◌∷◌,
  ◌++◌, length, take, drop, is_empty, Option, none, some, Result, ok, err, ◌>>=◌, ◌>>◌, raise_if,
  to_le, uint_at,
}
use esp_iris.Wire.Codes.Files.{FileType}
use esp_iris.Wire.Frame.{Frame}
use esp_iris.Exchange.{Device, Talk, Outcome, after, finally, state_after, stream_of}
use esp_iris.Files.Errors.{FileError, invalid_stream, read_offset, invalid_chunk, out_of_fuel}
use esp_iris.Files.Paths.{path_payload}
use esp_iris.Files.Answers.{checked, checked_exactly}
use esp_iris.Files.Methods.{ask_file, file_request}

-- What the answer to READ_OPEN says.
pub record ReadStream : Type 0 where
  pub stream_id : ℕ
  pub total_size : ℕ
  pub chunk_max : ℕ

unfoldable pub read_opened : Frame → Result FileError ReadStream
unfolding checked_exactly
read_opened frame = do
  payload ← checked_exactly frame FileType.read_opened 36
  raise_if
      (uint_at 4 4 payload == 0
        || (not (stream_of frame == uint_at 4 4 payload)
            || (uint_at 2 32 payload == 0 || not (uint_at 2 34 payload == 0))))
      invalid_stream
  ok (record {
    stream_id = uint_at 4 4 payload;
    total_size = uint_at 8 8 payload;
    chunk_max = uint_at 2 32 payload;
  })

-- `end`
abbrev pub end_of : ℕ → ℕ → Option ℕ → ℕ
end_of total_size offset none = total_size
end_of total_size offset (some length) = min total_size (offset + length)

-- `maximum`
abbrev pub read_most : ReadStream → ℕ → ℕ → ℕ
read_most stream end cursor = min (min stream.chunk_max (end - cursor)) 0xffff

-- The checks of a DATA answer, and its bytes.
unfoldable pub data_answer : ReadStream → ℕ → ℕ → Frame → Result FileError (List ℕ)
unfolding checked
data_answer stream end cursor frame = do
  payload ← checked frame FileType.data_frame 20
  raise_if
      (not (stream_of frame == stream.stream_id)
        || (not (uint_at 8 4 payload == cursor)
            || (not (uint_at 8 12 payload == stream.total_size)
                || (is_empty (drop 20 payload)
                    || ltb (read_most stream end cursor) (length (drop 20 payload))))))
      invalid_chunk
  ok (
      if ltb end (cursor + length (drop 20 payload))
      then take (end - cursor) (drop 20 payload)
      else drop 20 payload)

-- What a reader has seen, and how the generator has ended.
abbrev pub Yielded : Type 0 → Type 0
Yielded D = List (List ℕ) × Outcome FileError D (Unit {0})

abbrev pub yield :
    {D : Type 0} → Outcome FileError D (List ℕ) → (List ℕ → D → Yielded D) → Yielded D
yield (ok chunk, d) rest = (chunk ∷ (rest chunk d).0, (rest chunk d).1)
yield (err e, d) rest = ([], (err e, d))

module _ {D : Type 0} (device : Device D) where
  -- One round: READ at the cursor, "<QHH".
  unfoldable pub read_data : ReadStream → ℕ → ℕ → Talk FileError D (List ℕ)
  unfolding ask_file data_answer
  read_data stream end cursor d =
      after
        (ask_file device FileType.read
          (to_le 8 cursor ++ (to_le 2 (read_most stream end cursor) ++ to_le 2 0)) stream.stream_id
          d)
        (λ frame d. (data_answer stream end cursor frame, d))

  unfoldable pub read_loop : ℕ → ReadStream → ℕ → ℕ → D → Yielded D
  unfolding read_data
  read_loop zero stream end cursor d = ([], (err out_of_fuel, d))
  read_loop (suc fuel) stream end cursor d = elim (ltb cursor end) [
    | true ↦
        yield (read_data stream end cursor d)
          (λ chunk d. read_loop fuel stream end (cursor + length chunk) d)
    | false ↦ ([], (ok tt, d))
  ]

  -- The whole loop, with a round for each byte, and CLOSE behind it.
  unfoldable pub read_stream : ReadStream → ℕ → ℕ → D → Yielded D
  unfolding read_loop
  read_stream stream offset end d =
      let read = read_loop (suc (end - offset)) stream end offset d in
      (
        read.0,
        finally read.1 (state_after device (file_request FileType.close [] stream.stream_id)),
      )

  abbrev pub start_reading :
      Outcome FileError D ReadStream → (ReadStream → D → Yielded D) → Yielded D
  start_reading (ok stream, d) rest = rest stream d
  start_reading (err e, d) rest = ([], (err e, d))

  -- READ_OPEN and the check of the offset.
  unfoldable pub open_reading : List ℕ → List ℕ → ℕ → Talk FileError D ReadStream
  unfolding path_payload ask_file read_opened
  open_reading volume path offset d =
      after (path_payload volume path, d)
        (λ payload d. after (ask_file device FileType.read_open payload 0 d) (λ frame d.
          after (read_opened frame, d)
            (λ stream d.
              after (raise_if (ltb stream.total_size offset) read_offset, d)
                (λ _ d. (ok stream, d)))))

  unfoldable pub read_chunks : List ℕ → List ℕ → ℕ → Option ℕ → D → Yielded D
  unfolding open_reading read_stream
  read_chunks volume path offset length d =
      start_reading (open_reading volume path offset d)
        (λ stream d. read_stream stream offset (end_of stream.total_size offset length) d)
