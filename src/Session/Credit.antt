-- ===== src/Session/Credit.antt =====
-- The flow control of log and media records: the device is never left with too little credit, and
-- the credit that the host counts stays bounded.
use esp_iris.Common.{
  ℕ, ◌+◌, ◌-◌, ◌*◌, ◌≤◌, ◌<◌, ltb, max, ◌≡◌, refl, ◌∙◌, arith, List, [], ◌∷◌, ◌++◌, length, ok, set,
  get_or, uint_at, Bool-cases, inl, inr, ltb-false, ==_eq, get_or-set, get_or-set_other, ◌≢◌,
  length-set,
}
use esp_iris.Wire.Frame.{Frame}
use esp_iris.Wire.Codes.Enum.{int}
use esp_iris.Wire.Codes.Services.{MediaType, media_type_enum}
use esp_iris.Session.State.{Session}
use esp_iris.Session.Send.{grant_log_credit, grant_media_credit, credit_payload}
use esp_iris.Session.Hello.{log_credit_grant}
use esp_iris.Session.Records.{
  nat, handle_log, take_log, refill_log, handle_media, take_media, refill_media,
  log_credit_low_water,
}
use esp_iris.Session.Sending.{CanSend, sent, send_lem}

-- The session can send CREDIT.
abbrev pub CanCredit : ℕ → ℕ → Session → Type 0
CanCredit channel amount s = CanSend 0 9 (credit_payload channel amount) 0 0 0 s

CanSend-transfer :
    {channel type : ℕ} {payload : List ℕ} {flags request_id stream_id : ℕ} {s t : Session}
    → t.info ≡ s.info
    → t.sequence ≡ s.sequence
    → CanSend channel type payload flags request_id stream_id s
    → CanSend channel type payload flags request_id stream_id t
CanSend-transfer {channel = channel} a b c = record {
  channel_lt = c.channel_lt;
  type_lt = c.type_lt;
  payload_short = c.payload_short;
  payload_bytes = c.payload_bytes;
  flags_lt = c.flags_lt;
  request_id_lt = c.request_id_lt;
  stream_id_lt = c.stream_id_lt;
  session_lt = rw a c.session_lt;
  last_lt = rw b c.last_lt;
}

grant_log_credit_lem :
    (amount : ℕ) (s : Session)
    → CanCredit 1 amount s
    → (t : Session) × (grant_log_credit amount s ≡ (ok tt, t))
      × (t.log_credit ≡ s.log_credit + amount)
unfolding grant_log_credit
grant_log_credit_lem amount s c =
    let (encoded, e, _, _, _) = send_lem 0 9 (credit_payload 1 amount) 0 0 0 s c in
    (record (sent 0 (encoded ++ 0 ∷ []) s) { log_credit = s.log_credit + amount }, rw e refl, refl)

refill_log_lem :
    (s : Session)
    → CanCredit 1 log_credit_grant s
    → (t : Session) × (refill_log s ≡ (ok tt, t))
      × (128 * 1024 ≤ t.log_credit)
      × (t.log_credit < max (s.log_credit + 1) (384 * 1024))
unfolding refill_log
refill_log_lem s c = elim (Bool-cases (ltb s.log_credit log_credit_low_water)) [
  | inl y ↦
      let (t, e, n) = grant_log_credit_lem log_credit_grant s c in
      (t, rw y e, ground arith, ground arith)
  | inr y ↦ (s, rw y refl, ground arith, ground arith)
]

-- A log record of the right size is taken without an exception, and leaves the device a credit of
-- at least 128 KiB, and of less than 384 KiB unless it had more before.
pub handle_log-credit :
    (payload : List ℕ) (s : Session)
    → 16 ≤ length payload
    → length payload ≡ 16 + uint_at 2 14 payload
    → CanCredit 1 log_credit_grant s
    → (t : Session) × (handle_log payload s ≡ (ok tt, t))
      × (128 * 1024 ≤ t.log_credit)
      × (t.log_credit < max (s.log_credit + 1) (384 * 1024))
unfolding handle_log take_log
handle_log-credit payload s h e c =
    let (t, r, low, high) = refill_log_lem (take_log payload s) (CanSend-transfer refl refl c) in
    (t, rw (ltb-false (length payload) 16 h, ==_eq _ _ e) r, low, omega (arith, high))

-- The credit of one channel.
abbrev pub credit_of : Session → ℕ → ℕ
credit_of s channel = get_or s.media_credit channel 0

grant_media_credit_lem :
    (channel amount : ℕ) (s : Session)
    → channel < length s.media_credit
    → CanCredit channel amount s
    → (t : Session) × (grant_media_credit channel amount s ≡ (ok tt, t))
      × (credit_of t channel ≡ credit_of s channel + amount)
      × ((j : ℕ) → j ≢ channel → credit_of t j ≡ credit_of s j)
unfolding grant_media_credit
grant_media_credit_lem channel amount s h c =
    let (encoded, e, _, _, _) = send_lem 0 9 (credit_payload channel amount) 0 0 0 s c in
    (
      record (sent 0 (encoded ++ 0 ∷ []) s) {
        media_credit = set s.media_credit channel (credit_of s channel + amount);
      },
      rw e refl,
      get_or-set s.media_credit channel (credit_of s channel + amount) 0 h,
      λ j n. get_or-set_other s.media_credit channel j (credit_of s channel + amount) 0 n,
    )

refill_media_lem :
    (channel : ℕ) (s : Session)
    → channel < length s.media_credit
    → CanCredit channel (128 * 1024) s
    → (t : Session) × (refill_media channel s ≡ (ok tt, t))
      × (64 * 1024 ≤ credit_of t channel)
      × (credit_of t channel < max (credit_of s channel + 1) (192 * 1024))
      × ((j : ℕ) → j ≢ channel → credit_of t j ≡ credit_of s j)
unfolding refill_media
refill_media_lem channel s h c = elim (Bool-cases (ltb (credit_of s channel) (64 * 1024))) [
  | inl y ↦
      let (t, e, n, other) = grant_media_credit_lem channel (128 * 1024) s h c in
      (t, rw y e, ground arith, ground arith, other)
  | inr y ↦ (s, rw y refl, ground arith, ground arith, λ j n. refl)
]

-- A media frame of the right type and size is taken without an exception, leaves its channel a
-- credit of at least 64 KiB, and of less than 192 KiB unless it had more before, and does not touch
-- the credit of other channels.
pub handle_media-credit :
    (frame : Frame) (s : Session)
    → nat frame.type ≡ int MediaType.data_frame
    → 36 ≤ length frame.payload
    → length frame.payload ≡ 36 + uint_at 2 18 frame.payload
    → nat frame.channel < length s.media_credit
    → CanCredit (nat frame.channel) (128 * 1024) s
    → (t : Session) × (handle_media frame s ≡ (ok tt, t))
      × (64 * 1024 ≤ credit_of t (nat frame.channel))
      × (credit_of t (nat frame.channel) < max (credit_of s (nat frame.channel) + 1) (192 * 1024))
      × ((j : ℕ) → j ≢ nat frame.channel → credit_of t j ≡ credit_of s j)
unfolding handle_media take_media
handle_media-credit frame s is_data h e fits c =
    let channel = nat frame.channel in
    let left = credit_of s channel - length frame.payload in
    let (t, r, low, high, other) =
      refill_media_lem channel (take_media frame s)
        (rw (length-set s.media_credit channel left) fits) (CanSend-transfer refl refl c) in
    let now = get_or-set s.media_credit channel left 0 fits in
    (
      t,
      rw (==_eq _ _ is_data, ltb-false (length frame.payload) 36 h, ==_eq _ _ e) r,
      low,
      omega (arith, high, now),
      λ j n. other j n ∙ get_or-set_other s.media_credit channel j left 0 n,
    )
