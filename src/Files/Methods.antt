-- ===== src/Files/Methods.antt =====
-- The methods of `DeviceFiles` in files.py that ask once: `volumes`, `stat`, `mkdir`, `delete` and
-- `rename`.
use esp_iris.Common.{ℕ, List, [], ◌++◌, length, to_le}
use esp_iris.Wire.Codes.Enum.{int}
use esp_iris.Wire.Codes.Transport.{Channel, channel_enum}
use esp_iris.Wire.Codes.Files.{FileType, file_type_enum}
use esp_iris.Wire.Frame.{Frame}
use esp_iris.Exchange.{Request, Device, Talk, ◌>>=◌, lift, return, ask}
use esp_iris.Files.Errors.{FileError, fault}
use esp_iris.Files.Paths.{path_payload}
use esp_iris.Files.Answers.{Metadata, Volumes, metadata_answer, checked_exactly, volumes_answer}

-- A request on the channel of files.
abbrev pub file_request : FileType → List ℕ → ℕ → Request
file_request type payload stream_id = record {
  channel = int Channel.file;
  type = int type;
  payload = payload;
  stream_id = stream_id;
}

-- "<BBHHH", the volume, and both paths.
unfoldable pub rename_payload : List ℕ → List ℕ → List ℕ → List ℕ
rename_payload volume source destination =
    to_le 1 (length volume)
    ++ (to_le 1 0
        ++ (to_le 2 (length source)
            ++ (to_le 2 (length destination)
                ++ (to_le 2 0 ++ (volume ++ (source ++ destination))))))

module _ {D : Type 0} (device : Device D) where
  unfoldable pub ask_file : FileType → List ℕ → ℕ → Talk FileError D Frame
  ask_file type payload stream_id = ask fault device (file_request type payload stream_id)

  unfoldable pub volumes : Talk FileError D Volumes
  unfolding ask_file volumes_answer
  volumes = do frame ← ask_file FileType.volumes_request [] 0; lift (volumes_answer frame)

  -- A request on a path that is answered by the metadata of the file.
  unfoldable pub ask_metadata : FileType → FileType → List ℕ → Talk FileError D Metadata
  unfolding ask_file metadata_answer
  ask_metadata type answer payload = do
    frame ← ask_file type payload 0
    lift (metadata_answer answer frame)

  unfoldable pub stat : List ℕ → List ℕ → Talk FileError D Metadata
  unfolding path_payload ask_metadata
  stat volume path = do
    payload ← lift (path_payload volume path)
    ask_metadata FileType.stat_request FileType.stat_response payload

  unfoldable pub make_directory : List ℕ → List ℕ → Talk FileError D Metadata
  unfolding path_payload ask_metadata
  make_directory volume path = do
    payload ← lift (path_payload volume path)
    ask_metadata FileType.mkdir FileType.mkdir_response payload

  unfoldable pub delete_file : List ℕ → List ℕ → Talk FileError D (Unit {0})
  unfolding path_payload ask_file checked_exactly
  delete_file volume path = do
    payload ← lift (path_payload volume path)
    frame ← ask_file FileType.delete payload 0
    answer ← lift (checked_exactly frame FileType.delete_response 4)
    return tt

  unfoldable pub rename_file : List ℕ → List ℕ → List ℕ → Talk FileError D Metadata
  unfolding path_payload ask_metadata rename_payload
  rename_file volume source destination = do
    checked_source ← lift (path_payload volume source)
    checked_destination ← lift (path_payload volume destination)
    ask_metadata FileType.rename FileType.rename_response (rename_payload volume source destination)
