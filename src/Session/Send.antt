-- ===== src/Session/Send.antt =====
-- What `DeviceSession` sends: sequence numbers, request identifiers, credit, and the life of a
-- request.
use esp_iris.Common.{
  true, ℕ, ◌+◌, ◌^◌, ◌%◌, ◌==◌, not, if◌then◌else◌, List, [], ◌∷◌, ◌++◌, Option, none, some, ok,
  err, set, get_or, to_le, lookup, insert, remove, nat_eq, pos, map,
}
use esp_iris.Wire.Codes.Enum.{int}
use esp_iris.Wire.Codes.Transport.{Channel, ControlType, channel_enum, control_type_enum}
use esp_iris.Wire.Frame.{Frame, encode_frame}
use esp_iris.StateMachine.{SessionState, session_transition, close}
use esp_iris.Session.State.{
  Session, DeviceInfo, not_ready, connection_closed, Future, waiting, session_closed, Outcome, Done,
  ◌>>=◌, ◌>>◌, call,
}

unfoldable pub next_request_id : ℕ → ℕ
next_request_id id = let next = (id + 1) % 2 ^ 32 in if next == 0 then 1 else next

-- The session that frames are sent in: none yet has the number 0.
abbrev pub session_number : Option DeviceInfo → ℕ
session_number none = 0
session_number (some info) = info.session_id

unfoldable pub next_sequence : Session → ℕ → ℕ
next_sequence s channel = (get_or s.sequence channel 0 + 1) % 2 ^ 32

-- The frame that `_send` makes, once the channel has its next number.
unfoldable pub outgoing : Session → ℕ → ℕ → List ℕ → ℕ → ℕ → ℕ → Frame
unfolding next_sequence
outgoing s channel type payload flags request_id stream_id = record {
  channel = pos channel;
  type = pos type;
  flags = pos flags;
  session_id = pos (session_number s.info);
  request_id = pos request_id;
  stream_id = pos stream_id;
  sequence = pos (next_sequence s channel);
  payload = payload;
}

unfoldable pub send : ℕ → ℕ → List ℕ → ℕ → ℕ → ℕ → Session → Done
unfolding next_sequence outgoing
send channel type payload flags request_id stream_id s =
    let numbered = record s { sequence = set s.sequence channel (next_sequence s channel) } in
    call (encode_frame (outgoing s channel type payload flags request_id stream_id)) numbered
    >>= λ wire t. (ok tt, record t { written = t.written ++ wire ∷ [] })

-- The payload of CREDIT.
abbrev pub credit_payload : ℕ → ℕ → List ℕ
credit_payload channel amount = channel ∷ 0 ∷ 0 ∷ 0 ∷ to_le 4 amount

unfoldable pub grant_log_credit : ℕ → Session → Done
unfolding send
grant_log_credit amount s =
    send (int Channel.control) (int ControlType.credit) (credit_payload (int Channel.log) amount) 0
      0 0 s
    >> λ t. (ok tt, record t { log_credit = t.log_credit + amount })

unfoldable pub grant_media_credit : ℕ → ℕ → Session → Done
unfolding send
grant_media_credit channel amount s =
    send (int Channel.control) (int ControlType.credit) (credit_payload channel amount) 0 0 0 s
    >> λ t. (
      ok tt,
      record t {
        media_credit = set t.media_credit channel (get_or t.media_credit channel 0 + amount);
      },
    )

-- `_request_unlocked` up to its wait: the identifier of the request that is pending then. A write
-- that raises takes the request back.
unfoldable pub start_request : ℕ → ℕ → List ℕ → ℕ → Session → Outcome ℕ
unfolding next_request_id send
start_request channel type payload stream_id s =
    if not s.ready_announced
    then (err not_ready, s)
    else if s.is_closed
    then (err connection_closed, s)
    else (let id = next_request_id s.request_id in
        sent id (
          send channel type payload 0 id stream_id
            (record s { request_id = id; pending = insert id waiting s.pending })))
  where
    sent : ℕ → Done → Outcome ℕ
    sent id (ok _, t) = (ok id, t)
    sent id (err e, t) = (err e, record t { pending = remove id t.pending })

-- The end of the wait, by an answer or a timeout: the request is not pending any more.
unfoldable pub finish_request : ℕ → Session → Option Future × Session
finish_request id s = (lookup id s.pending, record s { pending = remove id s.pending })

-- `future.set_exception`, if it is not done.
abbrev pub fail_future : Future → Future
fail_future waiting = session_closed
fail_future done = done

-- A session that is not closed takes the event CLOSE.
abbrev pub closing : SessionState → SessionState
unfolding session_transition
closing s = elim (session_transition s close) [ ok t ↦ t | err e ↦ s ]

-- `close`, and the end of `run`: every pending request fails, and none is left. The futures that the
-- requests wait on are returned.
unfoldable pub close_session : Session → List (ℕ × Future) × Session
close_session s = (
  map (λ p. (p.0, fail_future p.1)) s.pending,
  record s { is_closed = true; state = closing s.state; pending = [] },
)
