-- ===== src/Session/Identity.antt =====
-- Who is at the other end: what a believed HELLO says, and that no frame exchanges the device.
use esp_iris.Common.{
  some-injective, ℕ, ◌≡◌, inl, inr, refl, sym, ◌∙◌, subst, Bool, true, false, not, ◌&&◌, ◌==◌,
  if◌then◌else◌, List, [], length, Option, none, some, Result, ok, err, Bool-cases,
}
use esp_iris.Wire.Tlv.{Fields, decode_tlv}
use esp_iris.Wire.Frame.{Frame}
use esp_iris.Wire.Codes.Transport.{ControlType, Capability}
use esp_iris.Session.State.{Session, DeviceInfo, SessionError, Done, ◌>>◌, ◌>>=◌, call}
use esp_iris.Session.Hello.{
  adopt, ask_reopen, answer_hello, prove_token, acknowledge, complete_ready, has_capability,
  ack_flags, greet, greet_checked, handle_hello,
}
use esp_iris.Session.Receive.{handle_frame, handle_later, is_control}
use esp_iris.Session.Records.{nat}
use esp_iris.Session.Replay.{handle_later-cases, recorded}
use esp_iris.Session.Info.{read_info, field}
use esp_iris.Wire.Error.{ProtocolError}
use esp_iris.Wire.Codes.Tags.{TlvTag}
use esp_iris.Session.Kept.{dispatch-KeepsIn, send-KeepsIn, complete_ready-KeepsIn}
use esp_iris.Session.Adoption.{Continues, adopt_sound, adopt-err}

-- The device of a session, where it has one, is the same before and after.
abbrev pub SameDevice : Session → Session → Type 0
SameDevice s t =
    (old : DeviceInfo)
    → s.info ≡ some old
    → (new : DeviceInfo) × (t.info ≡ some new) × Continues old new s.reopen_session_id

Continues-refl : (old : DeviceInfo) (reopen : Option ℕ) → Continues old old reopen
Continues-refl old reopen = record { same_id = refl; same_session = inl refl }

SameDevice-refl : (s : Session) → SameDevice s s
SameDevice-refl s old e = (old, e, Continues-refl old s.reopen_session_id)

SameDevice-info : (s t u : Session) → u.info ≡ t.info → SameDevice s t → SameDevice s u
SameDevice-info s t u a h old e = let (new, b, c) = h old e in (new, a ∙ b, c)

adopt-SameDevice : (info : DeviceInfo) (s t : Session) → adopt info s ≡ (ok tt, t) → SameDevice s t
adopt-SameDevice info s t h old e =
    let (a, origin) = adopt_sound info s t h in
    elim origin [
      | inl none_there ↦ absurd (cc (e, none_there))
      | inr (before, b, c) ↦ (
        info,
        a,
        subst (λ d. Continues d info s.reopen_session_id) (some-injective (sym b ∙ e)) c,
      )
    ]

if-info :
    (b : Bool) (x y : Done) (s : Session)
    → x.1.info ≡ s.info
    → y.1.info ≡ s.info
    → (if b then x else y).1.info ≡ s.info
if-info true x y s hx hy = hx
if-info false x y s hx hy = hy

handle_later-info : (frame : Frame) (s : Session) → (handle_later frame s).1.info ≡ s.info
handle_later-info frame s = elim (handle_later-cases frame s) [
  | inl (n, e) ↦ rw e refl
  | inr (inl (e, n)) ↦ rw e refl
  | inr (inr e) ↦ rw e (dispatch-KeepsIn frame (recorded frame s)).kept.info
]

ask_reopen-info : (info : DeviceInfo) (s : Session) → (ask_reopen info s).info ≡ s.info
unfolding ask_reopen
ask_reopen-info info s =
    elim (Bool-cases
      (has_capability info.capabilities Capability.session_reopen && not s.reopen_requested)) [
        | inl y ↦ rw y refl
        | inr n ↦ rw n refl
      ]

module _ (hmac_sha256 : List ℕ → List ℕ → List ℕ) (nonce : List ℕ) where
  prove_token-info :
      (info : DeviceInfo) (challenge : List ℕ) (token : Option (List ℕ)) (s : Session)
      → (prove_token hmac_sha256 nonce info challenge token s).1.info ≡ s.info
  unfolding prove_token
  prove_token-info info challenge none s = refl
  prove_token-info info challenge (some token) s = (send-KeepsIn _ _ _ _ _ _ s).kept.info

  ready_answer-info :
      (m : Done)
      → (m >> (λ t.
          if ack_flags t.reopen_session_id == 0 then complete_ready t else (ok tt, t))).1.info
        ≡ m.1.info
  ready_answer-info (err e, t) = refl
  ready_answer-info (ok _, t) = elim (Bool-cases (ack_flags t.reopen_session_id == 0)) [
    | inl y ↦ rw y (complete_ready-KeepsIn t).kept.info
    | inr n ↦ rw n refl
  ]

  answer_hello-info :
      (info : DeviceInfo) (challenge : List ℕ) (s : Session)
      → (answer_hello hmac_sha256 nonce info challenge s).1.info ≡ s.info
  unfolding answer_hello
  answer_hello-info info challenge s =
      if-info (info.auth_mode == 0) _ _ s
        (ready_answer-info (acknowledge [] s) ∙ (send-KeepsIn _ _ _ _ _ _ s).kept.info)
        (if-info (not (info.auth_mode == 1)) _ _ s refl (
          if-info (not (length challenge == 32)) _ _ s refl
            (prove_token-info info challenge s.pairing_token s)))

  greet-SameDevice :
      (fields : Fields) (info : DeviceInfo) (s : Session)
      → SameDevice s (greet hmac_sha256 nonce fields info s).1
  unfolding greet
  greet-SameDevice fields info s = followed (adopt info s) refl
    where
      next : Session → Done
      next t =
          answer_hello hmac_sha256 nonce info (field fields TlvTag.auth_challenge)
            (ask_reopen info t)

      followed : (m : Done) → adopt info s ≡ m → SameDevice s (m >> next).1
      followed (ok _, t) e =
          SameDevice-info s t (next t).1
            (answer_hello-info info (field fields TlvTag.auth_challenge) (ask_reopen info t)
              ∙ ask_reopen-info info t)
            (adopt-SameDevice info s t e)
      followed (err raised, t) e =
          subst (SameDevice s) (sym (adopt-err info s t raised e)) (SameDevice-refl s)

  handle_hello-SameDevice :
      (session_id : ℕ) (payload : List ℕ) (s : Session)
      → SameDevice s (handle_hello hmac_sha256 nonce session_id payload s).1
  unfolding handle_hello
  handle_hello-SameDevice session_id payload s = decoded (decode_tlv payload)
    where
      checked :
          (r : Result SessionError DeviceInfo) (fields : Fields)
          → SameDevice s (greet_checked hmac_sha256 nonce r fields s).1
      checked (ok info) fields = greet-SameDevice fields info s
      checked (err e) fields = SameDevice-refl s

      decoded :
          (r : Result ProtocolError Fields)
          → SameDevice s
              (call r s >>= λ fields t.
                greet_checked hmac_sha256 nonce (read_info fields session_id) fields t).1
      decoded (ok fields) = checked (read_info fields session_id) fields
      decoded (err e) = SameDevice-refl s

  -- Whatever frame a session handles, and even if that raises: a device that it has keeps its
  -- identifier, and its session number too, unless the session was to be reopened, and then the boot
  -- is the same.
  pub handle_frame-SameDevice :
      (frame : Frame) (s : Session) → SameDevice s (handle_frame hmac_sha256 nonce frame s).1
  unfolding handle_frame
  handle_frame-SameDevice frame s = elim (Bool-cases (is_control frame ControlType.hello)) [
    | inl y ↦ rw y (handle_hello-SameDevice (nat frame.session_id) frame.payload s)
    | inr n ↦ rw n (
        SameDevice-info s s (handle_later frame s).1 (handle_later-info frame s)
          (SameDevice-refl s))
  ]
