-- ===== src/Session/Sending.antt =====
-- What reaches the wire: `_send` writes one frame that the other end reads back, with a number that
-- it accepts.
use esp_iris.Common.{
  ℕ, ◌+◌, ◌^◌, ◌%◌, ◌≤◌, ◌<◌, ◌≡◌, refl, arith, true, List, [], ◌∷◌, ◌++◌, length, All, IsByte,
  some, ok, set, get_or,
}
use esp_iris.Wire.Frame.{IsValid, decode_frame}
use esp_iris.Wire.Frame.Encode.{decode_frame-encode_frame}
use esp_iris.Session.State.{Session}
use esp_iris.Session.Send.{send, outgoing, next_sequence, session_number}
use esp_iris.Session.Receive.{is_newer}

-- What a caller of `_send` keeps to.
pub record CanSend (channel type : ℕ) (payload : List ℕ) (flags request_id stream_id : ℕ)
    (s : Session) : Type 0 where
  pub channel_lt : channel < 10
  pub type_lt : type < 2 ^ 8
  pub payload_short : length payload ≤ 4000
  pub payload_bytes : All IsByte payload
  pub flags_lt : flags < 2 ^ 16
  pub request_id_lt : request_id < 2 ^ 32
  pub stream_id_lt : stream_id < 2 ^ 32
  pub session_lt : session_number s.info < 2 ^ 32
  pub last_lt : get_or s.sequence channel 0 < 2 ^ 32

-- The session behind `_send`: the channel has its next number, and a wire was written.
abbrev pub sent : ℕ → List ℕ → Session → Session
sent channel wire s = record s {
  sequence = set s.sequence channel (next_sequence s channel);
  written = s.written ++ wire ∷ [];
}

outgoing-IsValid :
    {channel type flags request_id stream_id : ℕ} {payload : List ℕ} {s : Session}
    → CanSend channel type payload flags request_id stream_id s
    → IsValid (outgoing s channel type payload flags request_id stream_id)
unfolding outgoing next_sequence
outgoing-IsValid {channel = channel} {s = s} c = record {
  channel = c.channel_lt;
  type = c.type_lt;
  flags = c.flags_lt;
  session_id = c.session_lt;
  request_id = c.request_id_lt;
  stream_id = c.stream_id_lt;
  sequence = omega arith;
  short = c.payload_short;
  bytes = c.payload_bytes;
}

next-is_newer : (last : ℕ) → last < 2 ^ 32 → is_newer (some last) ((last + 1) % 2 ^ 32) ≡ true
next-is_newer last h = ground arith

pub send_lem :
    (channel type : ℕ) (payload : List ℕ) (flags request_id stream_id : ℕ) (s : Session)
    → CanSend channel type payload flags request_id stream_id s
    → (encoded : List ℕ) × (send channel type payload flags request_id stream_id s
        ≡ (ok tt, sent channel (encoded ++ 0 ∷ []) s))
      × (decode_frame encoded ≡ ok (outgoing s channel type payload flags request_id stream_id))
      × (length encoded ≤ 4052)
      × (is_newer (some (get_or s.sequence channel 0)) (next_sequence s channel) ≡ true)
unfolding send next_sequence
send_lem channel type payload flags request_id stream_id s c =
    let (encoded, e, d, codes, short) =
      decode_frame-encode_frame (outgoing s channel type payload flags request_id stream_id)
        (outgoing-IsValid c) in
    (encoded, rw e refl, d, short, next-is_newer (get_or s.sequence channel 0) c.last_lt)
