-- ===== src/Files/Receiving.antt =====
-- What is assumed of a device that stores an upload, and what a client does with late answers.
use esp_iris.Common.{ℕ, ◌≡◌, ◌≢◌, refl, ◌⊎◌, inl, inr, List, [], ◌++◌, length, ok, err, to_le}
use esp_iris.Wire.Codes.Enum.{int}
use esp_iris.Wire.Codes.Files.{FileType, FileStatus, file_type_enum}
use esp_iris.Wire.Frame.{Frame}
use esp_iris.Exchange.{Request, Device, Talk, Outcome, timed_out}
use esp_iris.Files.Errors.{FileError, fault, file_service}
use esp_iris.Files.Methods.{file_request}
use esp_iris.Files.Writing.{WriteStatus, write_status_answer, unless_busy, on_timeout, ack_answer}

-- WRITE of a part at an offset, and WRITE_STATUS.
abbrev pub write_of : ℕ → ℕ → List ℕ → Request
write_of stream_id offset part =
    file_request FileType.write (to_le 8 offset ++ (to_le 2 (length part) ++ (to_le 2 0 ++ part)))
      stream_id

abbrev pub status_of : ℕ → Request
status_of stream_id = file_request FileType.write_status [] stream_id

pub on_timeout-ok :
    {D : Type 0} (device : Device D) (r : Outcome FileError D (Unit {0}))
    (k : Talk FileError D (Unit {0})) {d' : D}
    → on_timeout device r k ≡ (ok tt, d')
    → (r ≡ (ok tt, d')) ⊎ ((d : D) × (r ≡ (err (fault timed_out), d)) × (k d ≡ (ok tt, d')))
on_timeout-ok device (ok _, d) k h = inl h
on_timeout-ok device (err (fault timed_out), d) k h = inr (d, refl, h)
on_timeout-ok device (err _, d) k h = absurd (cc)

pub unless_busy-ok :
    {D : Type 0} (device : Device D) (r : Outcome FileError D WriteStatus)
    (k : Talk FileError D WriteStatus) {status : WriteStatus} {d' : D}
    → unless_busy device r k ≡ (ok status, d')
    → (r ≡ (ok status, d'))
      ⊎ ((d : D) × (r ≡ (err (file_service FileStatus.busy), d)) × (k d ≡ (ok status, d')))
unless_busy-ok device (ok _, d) k h = inl h
unless_busy-ok device (err (file_service FileStatus.busy), d) k h = inr (d, refl, h)
unless_busy-ok device (err _, d) k h = absurd (cc)

-- What is assumed of a device, by the bytes that it has stored of an upload: a WRITE appends its part
-- or changes nothing, whether it is answered or not; an acknowledgement and a status tell how many
-- bytes are stored; a new upload starts with none; and other requests, but ABORT, change nothing.
pub record Receives {D : Type 0} (device : Device D) (stored : D → List ℕ) : Type 0 where
  pub writes :
      (stream_id offset : ℕ) (part : List ℕ) (d : D)
      → (stored (device (write_of stream_id offset part) d).1 ≡ stored d)
        ⊎ (stored (device (write_of stream_id offset part) d).1 ≡ stored d ++ part)
  pub acks :
      (stream_id offset : ℕ) (part : List ℕ) (d : D) (target : ℕ) (frame : Frame) (d' : D)
      → device (write_of stream_id offset part) d ≡ (ok frame, d')
      → ack_answer stream_id target frame ≡ ok tt
      → target ≡ length (stored d')
  pub tells :
      (stream_id : ℕ) (d : D) (frame : Frame) (status : WriteStatus) (d' : D)
      → device (status_of stream_id) d ≡ (ok frame, d')
      → write_status_answer stream_id frame ≡ ok status
      → status.committed ≡ length (stored d')
  pub opens :
      (payload : List ℕ) (d : D) (frame : Frame) (d' : D)
      → device (file_request FileType.write_open payload 0) d ≡ (ok frame, d')
      → stored d' ≡ []
  pub keeps :
      (request : Request) (d : D)
      → request.type ≢ int FileType.write
      → request.type ≢ int FileType.write_open
      → request.type ≢ int FileType.abort
      → stored (device request d).1 ≡ stored d
