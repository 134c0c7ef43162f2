-- ===== src/Files/Errors.antt =====
-- The exceptions of files.py: one constructor for each message, and a fault of the model's own for a
-- loop whose fuel runs out. `file_error_http_status`.
use esp_iris.Common.{ℕ}
use esp_iris.Wire.Codes.Files.{FileStatus}
use esp_iris.Exchange.{Fault}

pub data FileError : Type 0 where
  fault : Fault → FileError
  invalid_volume invalid_path invalid_component path_too_long : FileError
  unexpected_response short_response : FileError
  unknown_status unknown_result : ℕ → FileError
  file_service : FileStatus → FileError
  truncated_volume invalid_volume_record invalid_volumes not_ascii : FileError
  short_metadata invalid_metadata invalid_response : FileError
  list_range invalid_stream invalid_page invalid_entry invalid_empty_page : FileError
  read_range read_offset invalid_chunk : FileError
  invalid_etag upload_size invalid_write_status invalid_ack : FileError
  upload_exceeds upload_short ack_not_recovered : FileError
  out_of_fuel : FileError

unfoldable pub file_error_http_status : FileStatus → ℕ
file_error_http_status FileStatus.invalid_argument = 400
file_error_http_status FileStatus.not_found = 404
file_error_http_status FileStatus.not_directory = 400
file_error_http_status FileStatus.not_file = 400
file_error_http_status FileStatus.read_only = 403
file_error_http_status FileStatus.busy = 409
file_error_http_status FileStatus.no_memory = 503
file_error_http_status FileStatus.io = 502
file_error_http_status FileStatus.not_supported = 501
file_error_http_status FileStatus.conflict = 409
file_error_http_status FileStatus.exists = 409
file_error_http_status FileStatus.not_empty = 409
file_error_http_status FileStatus.no_space = 507
file_error_http_status FileStatus.hash_mismatch = 422
file_error_http_status FileStatus.ok = 502
