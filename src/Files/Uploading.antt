-- ===== src/Files/Uploading.antt =====
-- `DeviceFiles.upload` of files.py. The chunks of the HTTP body are a list; `progress` is a parameter,
-- one that does nothing where the source has None; `sha256` is that of hashlib.
use esp_iris.Common.{
  ℕ, zero, suc, ◌+◌, ◌^◌, ◌==◌, ltb, not, ◌||◌, Bool, true, false, if◌then◌else◌, List, [], ◌∷◌,
  ◌++◌, length, take, drop, is_empty, Option, none, some, Result, ok, err, ◌>>=◌, ◌>>◌, raise_if,
  to_le,
}
use esp_iris.Wire.Codes.Files.{FileType, FileStatus}
use esp_iris.Wire.Frame.{Frame}
use esp_iris.Session.Probes.{hex}
use esp_iris.Exchange.{Device, Talk, Outcome, after, state_after, stream_of, timed_out}
use esp_iris.Files.Errors.{
  FileError, fault, file_service, invalid_response, upload_size, upload_exceeds, upload_short,
}
use esp_iris.Files.Paths.{path_payload}
use esp_iris.Files.Answers.{Metadata, checked, metadata}
use esp_iris.Files.Methods.{ask_file, file_request, stat}
use esp_iris.Files.Writing.{
  WriteStream, WriteStatus, WriteState, is_active, is_committed, is_aborted, etag_value,
  write_opened, write_part, reconcile_loop, reconcile_write_status,
}

-- The parts of `chunk_max` bytes of a chunk; a round takes at least a byte.
unfoldable pub split_parts : ℕ → ℕ → List ℕ → List (List ℕ)
split_parts zero chunk_max bytes = []
split_parts (suc fuel) chunk_max [] = []
split_parts (suc fuel) chunk_max (b ∷ bytes) =
    take chunk_max (b ∷ bytes) ∷ split_parts fuel chunk_max (drop chunk_max (b ∷ bytes))

-- `committed`, and the bytes that `digest` was updated with.
pub record Transfer : Type 0 where
  pub committed : ℕ
  pub digested : List ℕ

-- The request of an upload.
pub record Upload : Type 0 where
  pub volume : List ℕ
  pub path : List ℕ
  pub total_size : ℕ
  pub overwrite : Bool
  pub if_match : Option (List ℕ)

pub record Uploaded : Type 0 where
  pub about : Metadata
  pub sha256 : List ℕ
  pub replaced : Bool

abbrev pub has_value : Option (List ℕ) → Bool
has_value none = false
has_value (some value) = true

-- WRITE_OVERWRITE | WRITE_IF_MATCH
abbrev pub write_flags : Upload → ℕ
write_flags u = (if u.overwrite then 1 else 0) + (if has_value u.if_match then 2 else 0)

-- The payload of WRITE_OPEN: the path, and "<QQHH".
unfoldable pub write_request : Upload → Result FileError (List ℕ)
unfolding etag_value path_payload
write_request u = do
  raise_if (not (ltb u.total_size (2 ^ 63))) upload_size
  etag ← etag_value u.if_match
  path ← path_payload u.volume u.path
  ok (path ++ (to_le 8 u.total_size ++ (to_le 8 etag ++ (to_le 2 (write_flags u) ++ to_le 2 0))))

-- The answer to COMMIT.
unfoldable pub commit_answer : ℕ → Frame → Result FileError (List ℕ)
unfolding checked
commit_answer stream_id frame = do
  result ← checked frame FileType.commit_response 32
  raise_if (not (length result == 32) || not (stream_of frame == stream_id)) invalid_response
  ok result

abbrev pub is_ok : FileStatus → Bool
is_ok FileStatus.ok = true
is_ok _ = false

-- The end of the `try` block: `complete`, and the outcome.
abbrev pub Closed : Type 0 → Type 0 → Type 0
Closed D A = Bool × Outcome FileError D A

unfoldable pub complete_with : {D : Type 0} → Outcome FileError D (List ℕ) → Closed D Metadata
unfolding metadata
complete_with (ok payload, d) = (true, (metadata false (drop 4 payload), d))
complete_with (err e, d) = (false, (err e, d))

-- The dictionary that is returned, around the metadata.
unfoldable pub uploaded : Upload → List ℕ → Metadata → Uploaded
unfolding hex
uploaded u digest about = record { about = about; sha256 = hex digest; replaced = u.overwrite }

abbrev pub with_digest : {D : Type 0} → Upload → List ℕ → Closed D Metadata → Closed D Uploaded
with_digest u digest (complete, (ok about, d)) = (complete, (ok (uploaded u digest about), d))
with_digest u digest (complete, (err e, d)) = (complete, (err e, d))

module _ {D : Type 0} (device : Device D) (progress : ℕ → ℕ → Talk FileError D (Unit {0}))
    (sha256 : List ℕ → List ℕ) where
  -- The inner loop, over the parts of a chunk.
  unfoldable pub write_parts : ℕ → ℕ → List (List ℕ) → Transfer → Talk FileError D Transfer
  unfolding write_part
  write_parts stream_id total [] t d = (ok t, d)
  write_parts stream_id total (part ∷ parts) t d =
      after (write_part device stream_id t.committed part d) (λ _ d.
        after (progress (t.committed + length part) total d) (λ _ d.
          write_parts stream_id total parts
            (record { committed = t.committed + length part; digested = t.digested ++ part }) d))

  -- `async for chunk in chunks`
  unfoldable pub write_chunks :
      WriteStream → ℕ → List (List ℕ) → Transfer → Talk FileError D Transfer
  unfolding write_parts split_parts
  write_chunks stream total [] t d = (ok t, d)
  write_chunks stream total (chunk ∷ chunks) t d =
      let skipped = write_chunks stream total chunks t d in
      let written =
        after
          (write_parts stream.stream_id total (split_parts (length chunk) stream.chunk_max chunk) t
            d)
          (write_chunks stream total chunks) in
      if is_empty chunk
      then skipped
      else if ltb total (t.committed + length chunk)
      then (err upload_exceeds, d)
      else written

  unfoldable pub ask_commit : ℕ → List ℕ → Talk FileError D Frame
  unfolding ask_file
  ask_commit stream_id digested d = ask_file device FileType.commit (sha256 digested) stream_id d

  unfoldable pub commit_frame : ℕ → Outcome FileError D Frame → Closed D Metadata
  unfolding commit_answer complete_with
  commit_frame stream_id (ok frame, d) = complete_with (commit_answer stream_id frame, d)
  commit_frame stream_id (err e, d) = (false, (err e, d))

  -- What a write status says behind a COMMIT that was not answered in time.
  unfoldable pub settle : Upload → ℕ → List ℕ → WriteStatus → D → WriteState → Closed D Metadata
  unfolding stat ask_commit commit_frame
  settle u stream_id digested status d is_active =
      commit_frame stream_id (ask_commit stream_id digested d)
  settle u stream_id digested status d is_aborted = (false, (err (file_service status.result), d))
  settle u stream_id digested status d is_committed =
      if is_ok status.result
      then (true, stat device u.volume u.path d)
      else (false, (err (file_service status.result), d))

  unfoldable pub settled : Upload → ℕ → List ℕ → Outcome FileError D WriteStatus → Closed D Metadata
  unfolding settle
  settled u stream_id digested (ok status, d) = settle u stream_id digested status d status.state
  settled u stream_id digested (err e, d) = (false, (err e, d))

  -- The `try` around COMMIT, and what follows.
  unfoldable pub commit_or_settle :
      Upload → ℕ → List ℕ → Outcome FileError D Frame → Closed D Metadata
  unfolding reconcile_loop commit_frame settled
  commit_or_settle u stream_id digested (ok frame, d) = commit_frame stream_id (ok frame, d)
  commit_or_settle u stream_id digested (err (fault timed_out), d) =
      settled u stream_id digested (reconcile_write_status device stream_id d)
  commit_or_settle u stream_id digested (err e, d) = (false, (err e, d))

  unfoldable pub commit_upload : Upload → ℕ → List ℕ → D → Closed D Metadata
  unfolding commit_or_settle ask_commit
  commit_upload u stream_id digested d =
      commit_or_settle u stream_id digested (ask_commit stream_id digested d)

  unfoldable pub close_transfer : Upload → ℕ → Outcome FileError D Transfer → Closed D Uploaded
  unfolding commit_upload uploaded
  close_transfer u stream_id (err e, d) = (false, (err e, d))
  close_transfer u stream_id (ok t, d) =
      if t.committed == u.total_size
      then with_digest u (sha256 t.digested) (commit_upload u stream_id t.digested d)
      else (false, (err upload_short, d))

  -- `finally: if not complete: ABORT`
  abbrev pub abort_unless : ℕ → Closed D Uploaded → Outcome FileError D Uploaded
  abort_unless stream_id (true, outcome) = outcome
  abort_unless stream_id (false, (r, d)) =
      (r, state_after device (file_request FileType.abort [] stream_id) d)

  -- The upload behind WRITE_OPENED.
  unfoldable pub send_file : Upload → WriteStream → List (List ℕ) → Talk FileError D Uploaded
  unfolding write_chunks close_transfer
  send_file u stream chunks d = abort_unless stream.stream_id (
      close_transfer u stream.stream_id
        (write_chunks stream u.total_size chunks (record { committed = 0; digested = [] }) d))

  unfoldable pub open_upload : Upload → Talk FileError D WriteStream
  unfolding write_request write_opened ask_file
  open_upload u d =
      after (write_request u, d)
        (λ payload d.
          after (ask_file device FileType.write_open payload 0 d)
            (λ frame d. (write_opened frame, d)))

  unfoldable pub upload : Upload → List (List ℕ) → Talk FileError D Uploaded
  unfolding open_upload send_file
  upload u chunks d = after (open_upload u d) (λ stream d. send_file u stream chunks d)
