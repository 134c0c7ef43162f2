-- ===== src/Session/Replay.antt =====
-- A frame that arrives again is dropped, whatever it did the first time.
use esp_iris.Common.{
  ℕ, ◌+◌, ◌-◌, ◌^◌, ◌%◌, ◌<◌, ◌≡◌, ◌↔◌, ◌⊎◌, refl, ap, ◌∙◌, arith, true, false, List, length, none,
  some, ok, set, get_or, get_or-set, Bool-cases, inl, inr,
}
use esp_iris.Wire.Frame.{Frame}
use esp_iris.Wire.Codes.Transport.{ControlType}
use esp_iris.Session.State.{Session}
use esp_iris.Session.Receive.{
  is_newer, accept_sequence, in_session, dispatch, dispatch_new, handle_later, handle_frame,
  is_control,
}
use esp_iris.Session.Records.{nat}
use esp_iris.Session.Kept.{Kept, dispatch-KeepsIn}

-- A number is accepted behind another one of its channel exactly if it is ahead of it, modulo
-- 2^32, by less than half of the circle.
pub is_newer_iff :
    (last n : ℕ)
    → last < 2 ^ 32
    → n < 2 ^ 32
    → (is_newer (some last) n ≡ true)
      ↔ ((distance : ℕ) × (0 < distance) × (distance < 2 ^ 31) × (n ≡ (last + distance) % 2 ^ 32))
is_newer_iff last n h k = (
  (λ e. ((n + (2 ^ 32 - last)) % 2 ^ 32, ground arith, ground arith, omega arith)),
  (λ (d, a, b, e). ground arith),
)

not_newer : (n : ℕ) → n < 2 ^ 32 → is_newer (some n) n ≡ false
not_newer n h = ground arith

in_session-Kept :
    (frame : Frame) {s t : Session} → Kept s t → in_session frame t ≡ in_session frame s
in_session-Kept frame k = cc (k.info, k.reopen_session_id)

-- A session that has recorded the number drops the frame.
drop_recorded :
    (frame : Frame) (t : Session)
    → get_or t.last_rx_sequence (nat frame.channel) none ≡ some (nat frame.sequence)
    → nat frame.sequence < 2 ^ 32
    → handle_later frame t ≡ (ok tt, t)
unfolding handle_later accept_sequence dispatch_new
drop_recorded frame t e h = elim (Bool-cases (in_session frame t)) [
  | inl y ↦ rw (y, e, not_newer (nat frame.sequence) h) refl
  | inr n ↦ rw n refl
]

abbrev pub recorded : Frame → Session → Session
recorded frame s = record s {
  last_rx_sequence = set s.last_rx_sequence (nat frame.channel) (some (nat frame.sequence));
}

-- The three ways of a frame that is no HELLO: it is not of the session, it is not new, or it is
-- recorded and dispatched.
pub handle_later-cases :
    (frame : Frame) (s : Session)
    → ((in_session frame s ≡ false) × (handle_later frame s ≡ (ok tt, s)))
      ⊎ ((handle_later frame s ≡ (ok tt, s))
          × (is_newer (get_or s.last_rx_sequence (nat frame.channel) none) (nat frame.sequence)
              ≡ false))
      ⊎ (handle_later frame s ≡ dispatch frame (recorded frame s))
unfolding handle_later accept_sequence dispatch_new
handle_later-cases frame s = elim (Bool-cases (in_session frame s)) [
  | inr n ↦ inl (n, rw n refl)
  | inl y ↦
      elim (Bool-cases
        (is_newer (get_or s.last_rx_sequence (nat frame.channel) none) (nat frame.sequence))) [
          | inr n ↦ inr (inl (rw (y, n) refl, n))
          | inl m ↦ inr (inr (rw (y, m) refl))
        ]
]

dispatched-drop :
    (frame : Frame) (s : Session)
    → nat frame.channel < length s.last_rx_sequence
    → nat frame.sequence < 2 ^ 32
    → handle_later frame (dispatch frame (recorded frame s)).1
      ≡ (ok tt, (dispatch frame (recorded frame s)).1)
dispatched-drop frame s fits h =
    let kept = (dispatch-KeepsIn frame (recorded frame s)).kept in
    drop_recorded frame (dispatch frame (recorded frame s)).1
      (ap (λ l. get_or l (nat frame.channel) none) kept.last_rx_sequence
        ∙ get_or-set s.last_rx_sequence (nat frame.channel) (some (nat frame.sequence)) none fits)
      h

later-repeat :
    (frame : Frame) (s : Session)
    → nat frame.channel < length s.last_rx_sequence
    → nat frame.sequence < 2 ^ 32
    → handle_later frame (handle_later frame s).1 ≡ (ok tt, (handle_later frame s).1)
later-repeat frame s fits h = elim (handle_later-cases frame s) [
  | inl (n, e) ↦ rw e e
  | inr (inl (e, n)) ↦ rw e e
  | inr (inr e) ↦ rw e (dispatched-drop frame s fits h)
]

module _ (hmac_sha256 : List ℕ → List ℕ → List ℕ) (nonce : List ℕ) where
  -- A frame that is no HELLO and arrives a second time, right behind the first, changes nothing and
  -- raises nothing, whether the first was dropped, handled, or raised.
  pub repeat_dropped :
      (frame : Frame) (s : Session)
      → is_control frame ControlType.hello ≡ false
      → nat frame.channel < length s.last_rx_sequence
      → nat frame.sequence < 2 ^ 32
      → handle_frame hmac_sha256 nonce frame (handle_frame hmac_sha256 nonce frame s).1
        ≡ (ok tt, (handle_frame hmac_sha256 nonce frame s).1)
  unfolding handle_frame
  repeat_dropped frame s e fits h = rw e (later-repeat frame s fits h)
