-- ===== src/Files/Answers.antt =====
-- The checks on answers of the file service in files.py: `_checked`, `_metadata`, and those of
-- `volumes`, `stat`, `mkdir`, `delete` and `rename`.
use esp_iris.Common.{
  ℕ, zero, suc, ◌/◌, ◌%◌, ◌==◌, ltb, leb, not, ◌&&◌, ◌||◌, Bool, false, if◌then◌else◌, List, [],
  ◌∷◌, ◌++◌, length, take, drop, Option, none, some, Result, ok, err, ◌>>=◌, ◌>>◌, raise_if,
  uint_at, is_empty,
}
use esp_iris.Wire.Codes.Enum.{int, from_int}
use esp_iris.Wire.Codes.Transport.{Channel, channel_enum}
use esp_iris.Wire.Codes.Files.{FileType, FileStatus, file_type_enum, file_status_enum}
use esp_iris.Wire.Frame.{Frame}
use esp_iris.Session.Records.{nat}
use esp_iris.Session.Probes.{hex_digit}
use esp_iris.Exchange.{type_of}
use esp_iris.Files.Errors.{
  FileError, unexpected_response, short_response, unknown_status, file_service, truncated_volume,
  invalid_volume_record, invalid_volumes, not_ascii, short_metadata, invalid_metadata,
  invalid_response,
}
use esp_iris.Files.Paths.{any}

-- `FileStatus(raw)`, and the test for OK.
abbrev pub check_status : ℕ → Option FileStatus → Result FileError (Unit {0})
check_status raw none = err (unknown_status raw)
check_status raw (some FileStatus.ok) = ok tt
check_status raw (some status) = err (file_service status)

-- `_checked`
unfoldable pub checked : Frame → FileType → ℕ → Result FileError (List ℕ)
unfolding from_int
checked frame type minimum = do
  raise_if
      (not (nat frame.channel == int Channel.file)
        || (not (type_of frame == int type) || ltb (length frame.payload) 4))
      unexpected_response
  check_status (uint_at 2 0 frame.payload) (from_int (uint_at 2 0 frame.payload))
  raise_if (ltb (length frame.payload) minimum) short_response
  ok frame.payload

-- `checked`, and the test for the one length of such an answer.
unfoldable pub checked_exactly : Frame → FileType → ℕ → Result FileError (List ℕ)
unfolding checked
checked_exactly frame type size = do
  payload ← checked frame type size
  raise_if (not (length payload == size)) invalid_response
  ok payload

pub data FileKind : Type 0 where
  file directory : FileKind

pub record Metadata : Type 0 where
  pub kind : FileKind
  pub size : ℕ
  pub mtime_s : ℕ
  pub etag : List ℕ

-- FILE_KIND
abbrev pub file_kind : ℕ → Option FileKind
file_kind n = if n == 1 then some file else if n == 2 then some directory else none

-- The lowest hexadecimal digits of a number, as f"{etag:016x}" has 16 of them.
unfoldable pub hex_digits : ℕ → ℕ → List ℕ
hex_digits zero n = []
hex_digits (suc k) n = hex_digits k (n / 16) ++ hex_digit (n % 16) ∷ []

abbrev pub metadata_of : List ℕ → Option FileKind → Result FileError Metadata
metadata_of bytes none = err invalid_metadata
metadata_of bytes (some kind) = ok (record {
  kind = kind;
  size = uint_at 8 4 bytes;
  mtime_s = uint_at 8 12 bytes;
  etag = hex_digits 16 (uint_at 8 20 bytes);
})

-- `_metadata` of the bytes behind `offset`; the record is "<BBHQQQ".
unfoldable pub metadata : Bool → List ℕ → Result FileError Metadata
unfolding hex_digits
metadata list_entry bytes = do
  raise_if (ltb (length bytes) 28) short_metadata
  raise_if ((not list_entry && not (uint_at 1 1 bytes == 0)) || not (uint_at 2 2 bytes == 0))
      invalid_metadata
  metadata_of bytes (file_kind (uint_at 1 0 bytes))

-- The answers to STAT, MKDIR and RENAME, which differ by their type.
unfoldable pub metadata_answer : FileType → Frame → Result FileError Metadata
unfolding checked_exactly metadata
metadata_answer type frame = do
  payload ← checked_exactly frame type 32
  metadata false (drop 4 payload)

pub data VolumeCapability : Type 0 where
  read list mtime write delete mkdir rename atomic_replace hash : VolumeCapability

pub record Volume : Type 0 where
  pub id : List ℕ
  pub capabilities : ℕ
  pub capability_names : List VolumeCapability

pub record Volumes : Type 0 where
  pub volumes : List Volume
  pub chunk_max : ℕ
  pub path_max : ℕ

abbrev pub with_name : ℕ → ℕ → VolumeCapability → List VolumeCapability → List VolumeCapability
with_name capabilities bit name names =
    if (capabilities / bit) % 2 == 1 then name ∷ names else names

-- VOLUME_CAPABILITIES
unfoldable pub capability_names : ℕ → List VolumeCapability
capability_names c = with_name c 1 read (
    with_name c 2 list (
      with_name c 4 mtime (
        with_name c 8 write (
          with_name c 16 delete (
            with_name c 32 mkdir (
              with_name c 64 rename (with_name c 128 atomic_replace (with_name c 256 hash []))))))))

unfoldable pub volume_of : List ℕ → Volume
unfolding capability_names
volume_of bytes = record {
  id = take (uint_at 1 0 bytes) (drop 4 bytes);
  capabilities = uint_at 2 2 bytes;
  capability_names = capability_names (uint_at 2 2 bytes);
}

-- The loop of `volumes` over the bytes behind `offset`: the records, and what follows them.
unfoldable pub read_volumes : ℕ → List ℕ → Result FileError (List Volume × List ℕ)
unfolding volume_of
read_volumes zero bytes = ok ([], bytes)
read_volumes (suc count) bytes = do
  raise_if (ltb (length bytes) 4) truncated_volume
  raise_if
      (not (uint_at 1 1 bytes == 0)
        || (uint_at 1 0 bytes == 0 || ltb (length (drop 4 bytes)) (uint_at 1 0 bytes)))
      invalid_volume_record
  raise_if (any (leb 128) (volume_of bytes).id) not_ascii
  (volumes, rest) ← read_volumes count (drop (uint_at 1 0 bytes) (drop 4 bytes))
  ok (volume_of bytes ∷ volumes, rest)

unfoldable pub volumes_answer : Frame → Result FileError Volumes
unfolding checked read_volumes
volumes_answer frame = do
  payload ← checked frame FileType.volumes_response 12
  (volumes, rest) ← read_volumes (uint_at 1 8 payload) (drop 12 payload)
  raise_if (not (is_empty rest) || (uint_at 2 4 payload == 0 || uint_at 2 6 payload == 0))
      invalid_volumes
  ok (record { volumes = volumes; chunk_max = uint_at 2 4 payload; path_max = uint_at 2 6 payload })
