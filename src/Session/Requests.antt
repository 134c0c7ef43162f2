-- ===== src/Session/Requests.antt =====
-- The requests of a session with their answers in session.py: `rpc`, `job`, media descriptions,
-- `screenshot`, `restart`, `ota_status` and `read_core_dump_chunk`. What `_request` returns or
-- raises is an argument; for several requests in a row it is the list of what they return.
use esp_iris.Common.{
  ℕ, ◌+◌, ◌-◌, ◌^◌, ◌==◌, ltb, leb, min, max, not, ◌&&◌, ◌||◌, Bool, true, false, if◌then◌else◌,
  List, [], ◌∷◌, ◌++◌, length, drop, is_empty, Result, ok, err, ◌>>=◌, ◌>>◌, raise_if, to_le,
  uint_at, ℤ, pos, negsuc,
}
use esp_iris.Wire.Codes.Enum.{int}
use esp_iris.Wire.Codes.Transport.{Channel, ControlType, channel_enum, control_type_enum}
use esp_iris.Wire.Codes.Services.{
  MediaType, CrashType, media_type_enum, crash_type_enum, ota_type_enum,
}
use esp_iris.Wire.Error.{ProtocolError}
use esp_iris.Wire.Frame.{Frame}
use esp_iris.Session.State.{Job, SessionError}
use esp_iris.Session.Records.{nat, signed32, decode_job}

-- What a request method raises; `request_failed` is what `_request` raised.
pub data CallError : Type 0 where
  invalid_request unexpected_response invalid_response : CallError
  rpc_failed : ℤ → CallError
  job_error : SessionError → CallError
  struct_error request_failed : CallError
  bad_payload : ProtocolError → CallError

abbrev pub Answer : Type 0
Answer = Result CallError Frame

abbrev pub has_type : Frame → ℕ → Bool
has_type frame type = nat frame.type == type

-- `1 <= x <= 0xFFFF`
abbrev pub is_u16_id : ℕ → Bool
is_u16_id x = leb 1 x && ltb x (2 ^ 16)

-- "<HHIHH" and the payload.
unfoldable pub rpc_request : ℕ → ℕ → List ℕ → ℕ → Result CallError (List ℕ)
rpc_request service_id method_id payload deadline_ms =
    if not (is_u16_id service_id)
      || (not (is_u16_id method_id)
          || (not (ltb deadline_ms (2 ^ 32)) || ltb 1024 (length payload)))
    then err invalid_request
    else ok (
        to_le 2 service_id
        ++ (to_le 2 method_id
            ++ (to_le 4 deadline_ms ++ (to_le 2 (length payload) ++ (to_le 2 0 ++ payload)))))

-- The checks of `rpc` on the response "<HHiHH".
unfoldable pub rpc_response : ℕ → ℕ → Frame → Result CallError (List ℕ)
rpc_response service_id method_id frame = do
  raise_if (not (has_type frame (int ControlType.response)) || ltb (length frame.payload) 12)
      unexpected_response
  raise_if
      (not (uint_at 2 0 frame.payload == service_id)
        || (not (uint_at 2 2 frame.payload == method_id)
            || (not (uint_at 2 10 frame.payload == 0)
                || not (length frame.payload == 12 + uint_at 2 8 frame.payload))))
      invalid_response
  raise_if (not (uint_at 4 4 frame.payload == 0))
      (rpc_failed (signed32 (uint_at 4 4 frame.payload)))
  ok (drop 12 frame.payload)

unfoldable pub rpc : ℕ → ℕ → List ℕ → ℕ → (List ℕ → Answer) → Result CallError (List ℕ)
unfolding rpc_request rpc_response
rpc service_id method_id payload deadline_ms ask = do
  request ← rpc_request service_id method_id payload deadline_ms
  frame ← ask request
  rpc_response service_id method_id frame

unfoldable pub job_answer : Frame → Result CallError Job
unfolding decode_job
job_answer frame =
    if not (has_type frame (int ControlType.job_status))
    then err unexpected_response
    else elim (decode_job frame.payload) [ ok j ↦ ok j | err e ↦ err (job_error e) ]

-- `job`: the answer to CANCEL or JOB_QUERY for a job.
unfoldable pub job : ℕ → Bool → (ℕ → List ℕ → Answer) → Result CallError Job
unfolding job_answer
job job_id cancel ask = do
  raise_if (not (leb 1 job_id && ltb job_id (2 ^ 32))) invalid_request
  frame ←
      ask (if cancel then int ControlType.cancel else int ControlType.job_query) (to_le 4 job_id)
  job_answer frame

-- A media description, with the defaults of `_encode_media_description` filled in.
pub record Description : Type 0 where
  pub x : ℤ
  pub y : ℤ
  pub width : ℤ
  pub height : ℤ
  pub stride : ℤ
  pub format : ℤ
  pub quality : ℤ

abbrev pub is_negative : ℤ → Bool
is_negative (pos n) = false
is_negative (negsuc n) = true

abbrev pub any_negative : Description → Bool
any_negative d =
    is_negative d.x
    || (is_negative d.y
        || (is_negative d.width
            || (is_negative d.height
                || (is_negative d.stride || (is_negative d.format || is_negative d.quality)))))

-- The ranges of "<HHHHIHH".
abbrev pub fits_struct : Description → Bool
fits_struct d =
    ltb (nat d.x) (2 ^ 16)
    && (ltb (nat d.y) (2 ^ 16)
        && (ltb (nat d.width) (2 ^ 16)
            && (ltb (nat d.height) (2 ^ 16)
                && (ltb (nat d.stride) (2 ^ 32)
                    && (ltb (nat d.format) (2 ^ 16) && ltb (nat d.quality) (2 ^ 16))))))

unfoldable pub encode_media_description : Description → Result CallError (List ℕ)
encode_media_description d = do
  raise_if (any_negative d) invalid_request
  raise_if (not (fits_struct d)) struct_error
  ok (
      to_le 2 (nat d.x)
      ++ (to_le 2 (nat d.y)
          ++ (to_le 2 (nat d.width)
              ++ (to_le 2 (nat d.height)
                  ++ (to_le 4 (nat d.stride)
                      ++ (to_le 2 (nat d.format) ++ to_le 2 (nat d.quality)))))))

abbrev pub read_description : List ℕ → Description
read_description payload = record {
  x = pos (uint_at 2 0 payload);
  y = pos (uint_at 2 2 payload);
  width = pos (uint_at 2 4 payload);
  height = pos (uint_at 2 6 payload);
  stride = pos (uint_at 4 8 payload);
  format = pos (uint_at 2 12 payload);
  quality = pos (uint_at 2 14 payload);
}

unfoldable pub decode_media_description : List ℕ → Result CallError Description
decode_media_description payload =
    if ltb (length payload) 16 then err unexpected_response else ok (read_description payload)

-- `restart`
unfoldable pub restart : ℕ → (List ℕ → Answer) → Result CallError ℕ
restart delay_ms ask = do
  raise_if (not (leb 100 delay_ms && leb delay_ms 60000)) invalid_request
  frame ← ask (to_le 4 delay_ms)
  raise_if (not (has_type frame (int ControlType.restart)) || not (length frame.payload == 4))
      unexpected_response
  ok (uint_at 4 0 frame.payload)

-- `read_core_dump_chunk`: the total size, and the bytes at the offset.
unfoldable pub read_core_dump_chunk : ℕ → ℕ → ℕ → (List ℕ → Answer) → Result CallError (ℕ × List ℕ)
read_core_dump_chunk chunk_max offset maximum ask = do
  raise_if (not (ltb offset (2 ^ 32)) || not (leb 1 maximum && leb maximum 2048)) invalid_request
  frame ← ask (to_le 4 offset ++ (to_le 2 (min maximum chunk_max) ++ to_le 2 0))
  raise_if
      (not (nat frame.channel == int Channel.crash)
        || not (has_type frame (int CrashType.read_response)))
      unexpected_response
  raise_if (ltb (length frame.payload) 8) unexpected_response
  raise_if (not (uint_at 4 0 frame.payload == offset)) invalid_response
  ok (uint_at 4 4 frame.payload, drop 8 frame.payload)

-- The most that `screenshot` asks for in its next READ.
abbrev pub read_size : ℕ → ℕ → List ℕ → ℕ
read_size max_payload total received =
    min (max (max_payload - 64) 1) (min 0xffff (total - length received))

-- The check of a DATA response behind the bytes that were received, and its chunk.
unfoldable pub take_chunk : ℕ → List ℕ → Frame → Result CallError (List ℕ)
take_chunk total received frame = do
  raise_if (not (has_type frame (int MediaType.data_frame)) || ltb (length frame.payload) 8)
      unexpected_response
  raise_if
      (not (uint_at 4 0 frame.payload == length received)
        || (not (uint_at 4 4 frame.payload == total) || is_empty (drop 8 frame.payload)))
      invalid_response
  ok (drop 8 frame.payload)

-- The loop of `screenshot`. An answer that is missing is a timeout of its request.
unfoldable pub read_screen : ℕ → List ℕ → List Answer → Result CallError (List ℕ)
unfolding take_chunk
read_screen total received [] =
    if ltb (length received) total then err request_failed else ok received
read_screen total received (answer ∷ answers) =
    if ltb (length received) total
    then (answer >>= λ frame.
        take_chunk total received frame >>= λ chunk. read_screen total (received ++ chunk) answers)
    else ok received

unfoldable pub opened_screen : Frame → List Answer → Result CallError (Description × List ℕ)
unfolding read_screen decode_media_description
opened_screen frame answers = do
  raise_if (not (has_type frame (int MediaType.opened)) || not (length frame.payload == 20))
      unexpected_response
  actual ← decode_media_description frame.payload
  bytes ← read_screen (uint_at 4 16 frame.payload) [] answers
  ok (actual, bytes)

-- `screenshot`: the answer to OPEN, and the answers to READ.
unfoldable pub screenshot :
    Description → (List ℕ → Answer) → List Answer → Result CallError (Description × List ℕ)
unfolding opened_screen encode_media_description
screenshot requested open_screen answers = do
  request ← encode_media_description requested
  frame ← open_screen request
  opened_screen frame answers
