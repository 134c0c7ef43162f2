-- ===== src/Session/Kept.antt =====
-- What no frame but a HELLO changes: the device, a pending reopening, and the numbers received.
use esp_iris.Common.{
  ◌*◌, ◌%◌, ◌/◌, ◌&&◌, ◌||◌, bytes_eq, ◌∷◌, ◌++◌, get_or, set, ℕ, ltb, length, not, uint_at, ◌==◌,
  ◌+◌, ◌≡◌, refl, ◌∙◌, Bool, true, false, if◌then◌else◌, List, [], Option, none, some, ok, err,
  Result,
}
use esp_iris.Wire.Error.{ProtocolError}
use esp_iris.Wire.Frame.{Frame, encode_frame}
use esp_iris.Wire.Tlv.{decode_tlv}
use esp_iris.Wire.Codes.Enum.{int}
use esp_iris.Wire.Codes.Services.{MediaType, EventType, media_type_enum, event_type_enum}
use esp_iris.Wire.Codes.Transport.{Channel, ControlType, channel_enum, control_type_enum}
use esp_iris.StateMachine.{StateTransitionError, SessionState}
use esp_iris.Session.State.{
  pairing_rejected, media_size_mismatch, invalid_media, state_error, log_size_mismatch, short_log,
  no_info, Future, DeviceInfo, Job, Session, SessionError, Outcome, Done, ◌>>=◌, ◌>>◌, call,
}
use esp_iris.Session.Send.{next_sequence, send, grant_log_credit, grant_media_credit, outgoing}
use esp_iris.Session.Hello.{
  log_credit_grant, announce, ready_with, first_credit, enter, complete_ready,
}
use esp_iris.Session.Receive.{
  awaited, is_media, deliver, is_control, handle_record, handle_auth_result, dispatch,
}
use esp_iris.Session.Records.{
  pass_event, pass_job, nat, take_log, take_media, refill_media, refill_log, log_credit_low_water,
  handle_log, handle_event, handle_media,
}

pub record Kept (s t : Session) : Type 0 where
  pub info : t.info ≡ s.info
  pub reopen_session_id : t.reopen_session_id ≡ s.reopen_session_id
  pub last_rx_sequence : t.last_rx_sequence ≡ s.last_rx_sequence

keep :
    {s t : Session}
    → t.info ≡ s.info
    → t.reopen_session_id ≡ s.reopen_session_id
    → t.last_rx_sequence ≡ s.last_rx_sequence
    → Kept s t
keep a b c = record { info = a; reopen_session_id = b; last_rx_sequence = c }

Kept-refl : (s : Session) → Kept s s
Kept-refl s = keep refl refl refl

Kept-trans : {s t u : Session} → Kept s t → Kept t u → Kept s u
Kept-trans a b = record {
  info = b.info ∙ a.info;
  reopen_session_id = b.reopen_session_id ∙ a.reopen_session_id;
  last_rx_sequence = b.last_rx_sequence ∙ a.last_rx_sequence;
}

-- A handler that keeps them, whether it raises or not.
pub record KeepsIn {A : Type 0} (s : Session) (m : Outcome A) : Type 0 where
  pub kept : Kept s m.1

unchanged : {A : Type 0} (r : Result SessionError A) (s : Session) → KeepsIn s (r, s)
unchanged r s = record { kept = Kept-refl s }

leaves : {A : Type 0} (r : Result SessionError A) (s t : Session) → Kept s t → KeepsIn s (r, t)
leaves r s t h = record { kept = h }

after : {A : Type 0} {s t : Session} {m : Outcome A} → Kept s t → KeepsIn t m → KeepsIn s m
after h k = record { kept = Kept-trans h k.kept }

Keeps-bind :
    {A B : Type 0} {s : Session} (m : Outcome A) (f : A → Session → Outcome B)
    → KeepsIn s m
    → ((a : A) (t : Session) → KeepsIn t (f a t))
    → KeepsIn s (m >>= f)
Keeps-bind (ok a, t) f h k = after h.kept (k a t)
Keeps-bind (err e, t) f h k = record { kept = h.kept }

Keeps-next :
    {B : Type 0} {s : Session} (m : Done) (f : Session → Outcome B)
    → KeepsIn s m
    → ((t : Session) → KeepsIn t (f t))
    → KeepsIn s (m >> f)
Keeps-next (ok a, t) f h k = after h.kept (k t)
Keeps-next (err e, t) f h k = record { kept = h.kept }

Keeps-call :
    {A : Type 0} {s : Session} (r : Result ProtocolError A) (t : Session)
    → Kept s t
    → KeepsIn s (call r t)
Keeps-call (ok a) t h = record { kept = h }
Keeps-call (err e) t h = record { kept = h }

Keeps-if :
    {A : Type 0} {s : Session} (b : Bool) (x y : Outcome A)
    → KeepsIn s x
    → KeepsIn s y
    → KeepsIn s (if b then x else y)
Keeps-if true x y hx hy = hx
Keeps-if false x y hx hy = hy

pub send-KeepsIn :
    (channel type : ℕ) (payload : List ℕ) (flags request_id stream_id : ℕ) (s : Session)
    → KeepsIn s (send channel type payload flags request_id stream_id s)
unfolding send
send-KeepsIn channel type payload flags request_id stream_id s =
    Keeps-bind
      (call (encode_frame (outgoing s channel type payload flags request_id stream_id))
        (record s { sequence = set s.sequence channel (next_sequence s channel) }))
      (λ wire t. (ok tt, record t { written = t.written ++ wire ∷ [] }))
      (Keeps-call (encode_frame (outgoing s channel type payload flags request_id stream_id)) _
        (keep refl refl refl))
      (λ wire t. record { kept = keep refl refl refl })

grant_log_credit-KeepsIn : (amount : ℕ) (s : Session) → KeepsIn s (grant_log_credit amount s)
unfolding grant_log_credit
grant_log_credit-KeepsIn amount s =
    Keeps-next _ (λ t. (ok tt, record t { log_credit = t.log_credit + amount }))
      (send-KeepsIn _ _ _ _ _ _ s) (λ t. record { kept = keep refl refl refl })

grant_media_credit-KeepsIn :
    (channel amount : ℕ) (s : Session) → KeepsIn s (grant_media_credit channel amount s)
unfolding grant_media_credit
grant_media_credit-KeepsIn channel amount s =
    Keeps-next _
      (λ t. (
        ok tt,
        record t {
          media_credit = set t.media_credit channel (get_or t.media_credit channel 0 + amount);
        },
      ))
      (send-KeepsIn _ _ _ _ _ _ s) (λ t. record { kept = keep refl refl refl })

handle_log-KeepsIn : (payload : List ℕ) (s : Session) → KeepsIn s (handle_log payload s)
unfolding handle_log refill_log take_log
handle_log-KeepsIn payload s =
    Keeps-if (ltb (length payload) 16) _ _ (unchanged (err short_log) s) (
      Keeps-if (not (length payload == 16 + uint_at 2 14 payload)) _ _
        (unchanged (err log_size_mismatch) s)
        (Keeps-if (ltb (take_log payload s).log_credit log_credit_low_water) _ _
          (after {t = take_log payload s} (keep refl refl refl)
            (grant_log_credit-KeepsIn log_credit_grant _))
          (leaves (ok tt) s (take_log payload s) (keep refl refl refl))))

handle_media-KeepsIn : (frame : Frame) (s : Session) → KeepsIn s (handle_media frame s)
unfolding handle_media refill_media take_media
handle_media-KeepsIn frame s =
    Keeps-if (not (nat frame.type == int MediaType.data_frame) || ltb (length frame.payload) 36) _ _
      (unchanged (err invalid_media) s)
      (Keeps-if (not (length frame.payload == 36 + uint_at 2 18 frame.payload)) _ _
        (unchanged (err media_size_mismatch) s)
        (Keeps-if (ltb (get_or (take_media frame s).media_credit (nat frame.channel) 0) (64 * 1024))
          _ _
          (after {t = take_media frame s} (keep refl refl refl)
            (grant_media_credit-KeepsIn (nat frame.channel) (128 * 1024) _))
          (leaves (ok tt) s (take_media frame s) (keep refl refl refl))))

pass_job-KeepsIn : (r : Result SessionError Job) (s : Session) → KeepsIn s (pass_job r s)
unfolding pass_job
pass_job-KeepsIn (ok j) s = record { kept = keep refl refl refl }
pass_job-KeepsIn (err e) s = record { kept = keep refl refl refl }

handle_event-KeepsIn : (frame : Frame) (s : Session) → KeepsIn s (handle_event frame s)
unfolding handle_event pass_event
handle_event-KeepsIn frame s =
    Keeps-if (nat frame.type == int EventType.job_update) _ _ (pass_job-KeepsIn _ s) (
      Keeps-bind (call (decode_tlv frame.payload) s) (pass_event frame)
        (Keeps-call (decode_tlv frame.payload) s (Kept-refl s))
        (λ fields t. record { kept = keep refl refl refl }))

handle_record-KeepsIn : (frame : Frame) (s : Session) → KeepsIn s (handle_record frame s)
unfolding handle_record
handle_record-KeepsIn frame s =
    Keeps-if ((nat frame.channel == int Channel.log) && (nat frame.type == 1)) _ _
      (handle_log-KeepsIn frame.payload s)
      (Keeps-if (nat frame.channel == int Channel.event) _ _ (handle_event-KeepsIn frame s) (
        Keeps-if (is_media (nat frame.channel)) _ _ (handle_media-KeepsIn frame s)
          (unchanged (ok tt) s)))

first_credit-KeepsIn : (s : Session) → KeepsIn s (first_credit s)
unfolding first_credit
first_credit-KeepsIn s =
    Keeps-if (s.log_credit == 0) _ _ (grant_log_credit-KeepsIn log_credit_grant s)
      (unchanged (ok tt) s)

enter-KeepsIn : (r : Result StateTransitionError SessionState) (s : Session) → KeepsIn s (enter r s)
unfolding enter announce
enter-KeepsIn (err e) s = unchanged (err (state_error e)) s
enter-KeepsIn (ok state) s =
    Keeps-next (first_credit (record s { state = state })) announce
      (after {t = record s { state = state }} (keep refl refl refl) (first_credit-KeepsIn _))
      (λ t. record { kept = keep refl refl refl })

ready_with-KeepsIn : (info : Option DeviceInfo) (s : Session) → KeepsIn s (ready_with info s)
unfolding ready_with
ready_with-KeepsIn none s = unchanged (err no_info) s
ready_with-KeepsIn (some info) s = enter-KeepsIn _ s

pub complete_ready-KeepsIn : (s : Session) → KeepsIn s (complete_ready s)
unfolding complete_ready
complete_ready-KeepsIn s =
    Keeps-if s.ready_announced _ _ (unchanged (ok tt) s) (ready_with-KeepsIn s.info s)

deliver-KeepsIn :
    (frame : Frame) (future : Option Future) (s : Session) → KeepsIn s (deliver frame future s)
unfolding deliver
deliver-KeepsIn frame none s = handle_record-KeepsIn frame s
deliver-KeepsIn frame (some future) s = record { kept = keep refl refl refl }

pub dispatch-KeepsIn : (frame : Frame) (s : Session) → KeepsIn s (dispatch frame s)
unfolding dispatch handle_auth_result
dispatch-KeepsIn frame s =
    Keeps-if (is_control frame ControlType.auth_result) _ _
      (Keeps-if (not (bytes_eq frame.payload (1 ∷ [])) || (nat frame.flags / 2 % 2 == 1)) _ _
        (unchanged (err pairing_rejected) s) (complete_ready-KeepsIn s))
      (deliver-KeepsIn frame (awaited frame s) s)
