-- ===== src/Session/Receive.antt =====
-- The frames that a session receives: sequence numbers, log and media records, events, answers to
-- requests, and the dispatch of `_handle_frame` in session.py.
use esp_iris.Common.{
  ◌/◌, ℕ, ◌+◌, ◌-◌, ◌^◌, ◌%◌, ◌==◌, leb, not, ◌&&◌, ◌||◌, Bool, true, false, if◌then◌else◌, List,
  [], ◌∷◌, ◌++◌, Option, none, some, ok, err, set, get_or, uint_at, lookup, insert, nat_eq,
  bytes_eq,
}
use esp_iris.Wire.Codes.Enum.{int}
use esp_iris.Wire.Codes.Transport.{Channel, ControlType, channel_enum, control_type_enum}
use esp_iris.Wire.Codes.Services.{media_type_enum, event_type_enum}
use esp_iris.Wire.Codes.Tags.{tlv_tag_enum}
use esp_iris.Wire.Frame.{Frame}
use esp_iris.Wire.Stream.{feed}
use esp_iris.Session.State.{
  Session, pairing_rejected, Future, waiting, answered, device_error, Done, ◌>>◌,
}
use esp_iris.Session.Hello.{handle_hello, complete_ready}
use esp_iris.Session.Records.{nat, handle_log, handle_event, handle_media}

-- Whether a number is newer than the last one of its channel.
abbrev pub is_newer : Option ℕ → ℕ → Bool
is_newer none sequence = true
is_newer (some last) sequence =
    let distance = (sequence + (2 ^ 32 - last)) % 2 ^ 32 in
    not ((distance == 0) || leb 0x80000000 distance)

-- `_accept_sequence`
unfoldable pub accept_sequence : Frame → Session → Bool × Session
accept_sequence frame s =
    let channel = nat frame.channel in
    if is_newer (get_or s.last_rx_sequence channel none) (nat frame.sequence)
    then (
      true,
      record s { last_rx_sequence = set s.last_rx_sequence channel (some (nat frame.sequence)) },
    )
    else (false, s)

-- What the answer `frame` makes of the future of its request.
unfoldable pub resolve : Frame → Future → Future
resolve frame waiting =
    if nat frame.type == int ControlType.error
    then device_error (uint_at 4 0 (frame.payload ++ 0 ∷ 0 ∷ 0 ∷ 0 ∷ []))
    else answered frame
resolve frame done = done

abbrev pub is_media : ℕ → Bool
is_media channel =
    (channel == int Channel.screen)
    || (channel == int Channel.image)
    || (channel == int Channel.audio)

abbrev pub is_control : Frame → ControlType → Bool
is_control frame type = (nat frame.channel == int Channel.control) && (nat frame.type == int type)

-- A frame that answers no request, by its channel.
unfoldable pub handle_record : Frame → Session → Done
unfolding handle_log handle_event handle_media
handle_record frame s =
    if (nat frame.channel == int Channel.log) && (nat frame.type == 1)
    then handle_log frame.payload s
    else if nat frame.channel == int Channel.event
    then handle_event frame s
    else if is_media (nat frame.channel)
    then handle_media frame s
    else (ok tt, s)

-- AUTH_RESULT
unfoldable pub handle_auth_result : Frame → Session → Done
unfolding complete_ready
handle_auth_result frame s =
    if not (bytes_eq frame.payload (1 ∷ [])) || (nat frame.flags / 2 % 2 == 1)
    then (err pairing_rejected, s)
    else complete_ready s

-- The future that waits for the answer `frame`: none for a frame without a request identifier.
abbrev pub awaited : Frame → Session → Option Future
awaited frame s =
    if nat frame.request_id == 0 then none else lookup (nat frame.request_id) s.pending

-- A future that waits for the frame takes it as its answer; any other frame is a record.
unfoldable pub deliver : Frame → Option Future → Session → Done
unfolding handle_record resolve
deliver frame none s = handle_record frame s
deliver frame (some future) s =
    (ok tt, record s { pending = insert (nat frame.request_id) (resolve frame future) s.pending })

-- A frame of the session that is new on its channel.
unfoldable pub dispatch : Frame → Session → Done
unfolding handle_auth_result deliver
dispatch frame s =
    if is_control frame ControlType.auth_result
    then handle_auth_result frame s
    else deliver frame (awaited frame s) s

abbrev pub in_session : Frame → Session → Bool
in_session frame s = elim s.reopen_session_id [
  | some id ↦ false
  | none ↦ elim s.info [ none ↦ false | some info ↦ nat frame.session_id == info.session_id ]
]

unfoldable pub dispatch_new : Frame → Bool × Session → Done
unfolding dispatch
dispatch_new frame (true, t) = dispatch frame t
dispatch_new frame (false, t) = (ok tt, t)

-- A frame that is no HELLO.
unfoldable pub handle_later : Frame → Session → Done
unfolding accept_sequence dispatch_new
handle_later frame s =
    if in_session frame s then dispatch_new frame (accept_sequence frame s) else (ok tt, s)

module _ (hmac_sha256 : List ℕ → List ℕ → List ℕ) (nonce : List ℕ) where
  unfoldable pub handle_frame : Frame → Session → Done
  unfolding handle_later handle_hello
  handle_frame frame s =
      if is_control frame ControlType.hello
      then handle_hello hmac_sha256 nonce (nat frame.session_id) frame.payload s
      else handle_later frame s

  unfoldable pub handle_frames : List Frame → Session → Done
  unfolding handle_frame
  handle_frames [] s = (ok tt, s)
  handle_frames (frame ∷ frames) s = handle_frame frame s >> λ t. handle_frames frames t

  -- One round of the loop of `run`: a chunk of bytes that the link read.
  unfoldable pub receive : List ℕ → Session → Done
  unfolding handle_frames
  receive bytes s =
      let (decoder, frames) = feed s.decoder bytes in
      handle_frames frames (record s { decoder = decoder })
