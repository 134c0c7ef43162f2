-- ===== src/Session/Hello.antt =====
-- `_handle_hello` and `_complete_ready` of session.py: how a session gets its device, reopens and
-- becomes ready.
use esp_iris.Common.{
  ◌*◌, ℕ, ◌/◌, ◌%◌, ◌^◌, ◌==◌, not, ◌&&◌, Bool, true, false, if◌then◌else◌, List, [], ◌∷◌, ◌++◌,
  length, Option, none, some, ok, err, replicate, bytes_eq, to_le, Result,
}
use esp_iris.Wire.Codes.Enum.{int}
use esp_iris.Wire.Codes.Transport.{
  Channel, ControlType, Capability, channel_enum, control_type_enum, capability_enum,
}
use esp_iris.Wire.Codes.Tags.{TlvTag}
use esp_iris.Wire.Tlv.{Fields, decode_tlv}
use esp_iris.StateMachine.{SessionState, StateTransitionError, session_transition, authenticated}
use esp_iris.Session.State.{
  Session, DeviceInfo, SessionError, state_error, identity_changed_in_reopen, identity_changed,
  unsupported_auth, missing_challenge, missing_token, no_info, is_ready, Done, ◌>>=◌, ◌>>◌, call,
  channel_count,
}
use esp_iris.Session.Info.{read_info, field}
use esp_iris.Session.Send.{send, grant_log_credit}

abbrev pub log_credit_grant : ℕ
log_credit_grant = 256 * 1024

unfoldable pub first_credit : Session → Done
unfolding grant_log_credit
first_credit t = if t.log_credit == 0 then grant_log_credit log_credit_grant t else (ok tt, t)

unfoldable pub announce : Session → Done
announce t = (ok tt, record t { events = t.events ++ is_ready t.info ∷ []; ready_announced = true })

unfoldable pub enter : Result StateTransitionError SessionState → Session → Done
unfolding first_credit announce
enter (err e) s = (err (state_error e), s)
enter (ok state) s = first_credit (record s { state = state }) >> announce

unfoldable pub ready_with : Option DeviceInfo → Session → Done
unfolding enter session_transition
ready_with none s = (err no_info, s)
ready_with (some info) s = enter (session_transition s.state authenticated) s

-- `_complete_ready`
unfoldable pub complete_ready : Session → Done
unfolding ready_with
complete_ready s = if s.ready_announced then (ok tt, s) else ready_with s.info s

-- `self._reopen_session_id is not None and info.session_id != self._reopen_session_id`
abbrev pub reopens : Option ℕ → ℕ → Bool
reopens none session_id = false
reopens (some old) session_id = not (session_id == old)

-- A reopened session is one of the same boot of the device, and all its numbers start again.
unfoldable pub adopt_reopened : DeviceInfo → Option DeviceInfo → Session → Done
adopt_reopened info none s = (err identity_changed_in_reopen, s)
adopt_reopened info (some old) s =
    if bytes_eq old.device_id info.device_id && (old.boot_id == info.boot_id)
    then (
      ok tt,
      record s {
        info = some info;
        reopen_session_id = none;
        sequence = replicate channel_count 0;
        last_rx_sequence = replicate channel_count none;
      },
    )
    else (err identity_changed_in_reopen, s)

unfoldable pub adopt_repeated : DeviceInfo → Option DeviceInfo → Session → Done
adopt_repeated info none s = (ok tt, record s { info = some info })
adopt_repeated info (some old) s =
    if bytes_eq old.device_id info.device_id && (old.session_id == info.session_id)
    then (ok tt, record s { info = some info })
    else (err identity_changed, s)

-- The identity of a device over the HELLOs of one link.
unfoldable pub adopt : DeviceInfo → Session → Done
unfolding adopt_reopened adopt_repeated
adopt info s =
    if reopens s.reopen_session_id info.session_id
    then adopt_reopened info s.info s
    else adopt_repeated info s.info s

abbrev pub has_capability : ℕ → Capability → Bool
has_capability capabilities c = capabilities / int c % 2 == 1

-- A device that can reopen its session is asked to, once.
unfoldable pub ask_reopen : DeviceInfo → Session → Session
ask_reopen info s =
    if has_capability info.capabilities Capability.session_reopen && not s.reopen_requested
    then record s { reopen_requested = true; reopen_session_id = some info.session_id }
    else s

-- Bit 5 of HELLO_ACK.
abbrev pub ack_flags : Option ℕ → ℕ
ack_flags none = 0
ack_flags (some id) = 2 ^ 5

abbrev pub acknowledge : List ℕ → Session → Done
acknowledge payload s =
    send (int Channel.control) (int ControlType.hello_ack) payload (ack_flags s.reopen_session_id) 0
      0 s

-- b"ESP-Iris-auth-v1"
abbrev pub auth_label : List ℕ
auth_label =
    0x45 ∷ 0x53 ∷ 0x50 ∷ 0x2d ∷ 0x49 ∷ 0x72 ∷ 0x69 ∷ 0x73 ∷ 0x2d ∷ 0x61 ∷ 0x75 ∷ 0x74 ∷ 0x68 ∷ 0x2d
    ∷ 0x76 ∷ 0x31 ∷ []

-- `hmac_sha256 key message` is `hmac.new(key, message, hashlib.sha256).digest()`, and `nonce` what
-- `secrets.token_bytes(16)` returns.
module _ (hmac_sha256 : List ℕ → List ℕ → List ℕ) (nonce : List ℕ) where
  -- The answer to the challenge of a device.
  unfoldable pub auth_message : DeviceInfo → List ℕ → List ℕ
  auth_message info challenge =
      auth_label
      ++ (info.device_id
          ++ (to_le 8 info.boot_id ++ (to_le 4 info.session_id ++ (challenge ++ nonce))))

  unfoldable pub prove_token : DeviceInfo → List ℕ → Option (List ℕ) → Session → Done
  unfolding auth_message send
  prove_token info challenge none s = (err missing_token, s)
  prove_token info challenge (some token) s =
      acknowledge (nonce ++ hmac_sha256 token (auth_message info challenge)) s

  -- HELLO_ACK, and READY if nothing is to be proved and no reopening is pending.
  unfoldable pub answer_hello : DeviceInfo → List ℕ → Session → Done
  unfolding complete_ready prove_token send
  answer_hello info challenge s =
      if info.auth_mode == 0
      then acknowledge [] s
        >> (λ t. if ack_flags t.reopen_session_id == 0 then complete_ready t else (ok tt, t))
      else if not (info.auth_mode == 1)
      then (err (unsupported_auth info.auth_mode), s)
      else if not (length challenge == 32)
      then (err missing_challenge, s)
      else prove_token info challenge s.pairing_token s

  unfoldable pub greet : Fields → DeviceInfo → Session → Done
  unfolding adopt ask_reopen answer_hello
  greet fields info s = adopt info s >> λ t.
      answer_hello info (field fields TlvTag.auth_challenge) (ask_reopen info t)

  unfoldable pub greet_checked : Result SessionError DeviceInfo → Fields → Session → Done
  unfolding greet
  greet_checked (err e) fields s = (err e, s)
  greet_checked (ok info) fields s = greet fields info s

  -- `_handle_hello`, for a frame with this session number and payload.
  unfoldable pub handle_hello : ℕ → List ℕ → Session → Done
  unfolding greet_checked read_info
  handle_hello session_id payload s = call (decode_tlv payload) s >>= λ fields t.
      greet_checked (read_info fields session_id) fields t
