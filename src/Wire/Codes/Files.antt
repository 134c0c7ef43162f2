-- ===== src/Wire/Codes/Files.antt =====
-- Enumerations of protocol.py: FileType, FileStatus.
-- The member DATA is `data_frame` here.
use esp_iris.Common.{ℕ, List, [], ◌∷◌, ◌≡◌, refl, some}
use esp_iris.Wire.Codes.Enum.{IntEnum, of_code}

pub data FileType : Type 0 where
  volumes_request volumes_response stat_request stat_response list_open list_opened : FileType
  list_next list_data close close_response read_open read_opened read data_frame : FileType
  write_open write_opened write write_ack commit commit_response abort : FileType
  abort_response mkdir mkdir_response delete delete_response rename rename_response : FileType
  write_status write_status_response : FileType

pub data FileStatus : Type 0 where
  ok invalid_argument not_found not_directory not_file read_only busy no_memory io : FileStatus
  not_supported conflict exists not_empty no_space hash_mismatch : FileStatus

abbrev pub file_type_code : FileType → ℕ
file_type_code FileType.volumes_request = 0x01
file_type_code FileType.volumes_response = 0x02
file_type_code FileType.stat_request = 0x03
file_type_code FileType.stat_response = 0x04
file_type_code FileType.list_open = 0x05
file_type_code FileType.list_opened = 0x06
file_type_code FileType.list_next = 0x07
file_type_code FileType.list_data = 0x08
file_type_code FileType.close = 0x09
file_type_code FileType.close_response = 0x0a
file_type_code FileType.read_open = 0x0b
file_type_code FileType.read_opened = 0x0c
file_type_code FileType.read = 0x0d
file_type_code FileType.data_frame = 0x0e
file_type_code FileType.write_open = 0x0f
file_type_code FileType.write_opened = 0x10
file_type_code FileType.write = 0x11
file_type_code FileType.write_ack = 0x12
file_type_code FileType.commit = 0x13
file_type_code FileType.commit_response = 0x14
file_type_code FileType.abort = 0x15
file_type_code FileType.abort_response = 0x16
file_type_code FileType.mkdir = 0x17
file_type_code FileType.mkdir_response = 0x18
file_type_code FileType.delete = 0x19
file_type_code FileType.delete_response = 0x1a
file_type_code FileType.rename = 0x1b
file_type_code FileType.rename_response = 0x1c
file_type_code FileType.write_status = 0x1d
file_type_code FileType.write_status_response = 0x1e

abbrev pub file_type_members : List FileType
file_type_members =
    FileType.volumes_request ∷ FileType.volumes_response ∷ FileType.stat_request
    ∷ FileType.stat_response ∷ FileType.list_open ∷ FileType.list_opened ∷ FileType.list_next
    ∷ FileType.list_data ∷ FileType.close ∷ FileType.close_response ∷ FileType.read_open
    ∷ FileType.read_opened ∷ FileType.read ∷ FileType.data_frame ∷ FileType.write_open
    ∷ FileType.write_opened ∷ FileType.write ∷ FileType.write_ack ∷ FileType.commit
    ∷ FileType.commit_response ∷ FileType.abort ∷ FileType.abort_response ∷ FileType.mkdir
    ∷ FileType.mkdir_response ∷ FileType.delete ∷ FileType.delete_response ∷ FileType.rename
    ∷ FileType.rename_response ∷ FileType.write_status ∷ FileType.write_status_response ∷ []

pub file_type_distinct :
    (x : FileType) → of_code file_type_code file_type_members (file_type_code x) ≡ some x
unfolding of_code
file_type_distinct FileType.volumes_request = refl
file_type_distinct _ = refl

instance abbrev pub file_type_enum : IntEnum FileType
file_type_enum = record {
  code = file_type_code;
  members = file_type_members;
  distinct = file_type_distinct;
}

abbrev pub file_status_code : FileStatus → ℕ
file_status_code FileStatus.ok = 0
file_status_code FileStatus.invalid_argument = 1
file_status_code FileStatus.not_found = 2
file_status_code FileStatus.not_directory = 3
file_status_code FileStatus.not_file = 4
file_status_code FileStatus.read_only = 5
file_status_code FileStatus.busy = 6
file_status_code FileStatus.no_memory = 7
file_status_code FileStatus.io = 8
file_status_code FileStatus.not_supported = 9
file_status_code FileStatus.conflict = 10
file_status_code FileStatus.exists = 11
file_status_code FileStatus.not_empty = 12
file_status_code FileStatus.no_space = 13
file_status_code FileStatus.hash_mismatch = 14

abbrev pub file_status_members : List FileStatus
file_status_members =
    FileStatus.ok ∷ FileStatus.invalid_argument ∷ FileStatus.not_found ∷ FileStatus.not_directory
    ∷ FileStatus.not_file ∷ FileStatus.read_only ∷ FileStatus.busy ∷ FileStatus.no_memory
    ∷ FileStatus.io ∷ FileStatus.not_supported ∷ FileStatus.conflict ∷ FileStatus.exists
    ∷ FileStatus.not_empty ∷ FileStatus.no_space ∷ FileStatus.hash_mismatch ∷ []

pub file_status_distinct :
    (x : FileStatus) → of_code file_status_code file_status_members (file_status_code x) ≡ some x
unfolding of_code
file_status_distinct FileStatus.ok = refl
file_status_distinct _ = refl

instance abbrev pub file_status_enum : IntEnum FileStatus
file_status_enum = record {
  code = file_status_code;
  members = file_status_members;
  distinct = file_status_distinct;
}
