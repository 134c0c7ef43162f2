-- ===== src/Session/Adoption.antt =====
-- Which device a HELLO may make the device of the session.
use esp_iris.Common.{
  ℕ, ◌≡◌, ◌≢◌, ◌⊎◌, inl, inr, refl, sym, ap, subst, arith, Bool, true, false, ◌&&◌, ◌==◌,
  if◌then◌else◌, Option, none, some, Result, ok, err, bytes_eq, bytes_eq_sound, Bool-cases,
}
use esp_iris.Session.State.{Session, DeviceInfo, SessionError, Done, Outcome}
use esp_iris.Session.Hello.{adopt, adopt_reopened, adopt_repeated, reopens}

-- What connects the device of a link before and after: the identifier is the same, and the session
-- is too, unless the session was to be reopened, in which case the boot is.
pub record Continues (old new : DeviceInfo) (reopen_session_id : Option ℕ) : Type 0 where
  pub same_id : new.device_id ≡ old.device_id
  pub same_session :
      (new.session_id ≡ old.session_id)
      ⊎ ((pending : ℕ) × (reopen_session_id ≡ some pending)
          × (new.session_id ≢ pending)
          × (new.boot_id ≡ old.boot_id))

both : (a b : Bool) → (a && b) ≡ true → (a ≡ true) × (b ≡ true)
both a b h = ground arith

reopening :
    (reopen : Option ℕ) (session_id : ℕ)
    → reopens reopen session_id ≡ true
    → (pending : ℕ) × (reopen ≡ some pending) × (session_id ≢ pending)
reopening none session_id h = absurd (cc)
reopening (some pending) session_id h = (pending, refl, λ e. ground arith)

Outcome-fields :
    {A : Type 0} {r q : Result SessionError A} {s t : Session}
    → ◌≡◌ {A = Outcome A} (r, s) (q, t)
    → (r ≡ q) × (s ≡ t)
Outcome-fields h = (ap (λ m. m.0) h, ap (λ m. m.1) h)

equal : (a b : ℕ) → (a == b) ≡ true → a ≡ b
equal a b h = ground arith

adopt_reopened_sound :
    (info : DeviceInfo) (before : Option DeviceInfo) (s t : Session) (pending : ℕ)
    → info.session_id ≢ pending
    → adopt_reopened info before s ≡ (ok tt, t)
    → (t.info ≡ some info)
      × ((old : DeviceInfo) × (before ≡ some old) × Continues old info (some pending))
unfolding adopt_reopened
adopt_reopened_sound info none s t pending n h = absurd (cc (ap (λ m. m.0) h))
adopt_reopened_sound info (some old) s t pending n h =
    elim (Bool-cases (bytes_eq old.device_id info.device_id && (old.boot_id == info.boot_id))) [
      | inl y ↦
          let (a, b) = both _ _ y in
          let (_, e) = Outcome-fields (rw y at h) in
          (
            ap (λ u. u.info) (sym e),
            (
              old,
              refl,
              record {
                same_id = sym (bytes_eq_sound _ _ a);
                same_session = inr (pending, refl, n, sym (equal _ _ b));
              },
            ),
          )
      | inr m ↦ absurd (cc (ap (λ m. m.0) (rw m at h)))
    ]

adopt_repeated_sound :
    (info : DeviceInfo) (before : Option DeviceInfo) (s t : Session) (reopen : Option ℕ)
    → adopt_repeated info before s ≡ (ok tt, t)
    → (t.info ≡ some info)
      × ((before ≡ none) ⊎ ((old : DeviceInfo) × (before ≡ some old) × Continues old info reopen))
unfolding adopt_repeated
adopt_repeated_sound info none s t reopen h =
    let (_, e) = Outcome-fields h in (ap (λ u. u.info) (sym e), inl refl)
adopt_repeated_sound info (some old) s t reopen h =
    elim (Bool-cases
      (bytes_eq old.device_id info.device_id && (old.session_id == info.session_id))) [
        | inl y ↦
            let (a, b) = both _ _ y in
            let (_, e) = Outcome-fields (rw y at h) in
            (
              ap (λ u. u.info) (sym e),
              inr (
                old,
                refl,
                record {
                  same_id = sym (bytes_eq_sound _ _ a);
                  same_session = inl (sym (equal _ _ b));
                },
              ),
            )
        | inr m ↦ absurd (cc (ap (λ m. m.0) (rw m at h)))
      ]

-- A HELLO that is adopted makes its device the device of the session: the first one of the link,
-- or one that continues the one before.
pub adopt_sound :
    (info : DeviceInfo) (s t : Session)
    → adopt info s ≡ (ok tt, t)
    → (t.info ≡ some info)
      × ((s.info ≡ none)
          ⊎ ((old : DeviceInfo) × (s.info ≡ some old) × Continues old info s.reopen_session_id))
unfolding adopt
adopt_sound info s t h = elim (Bool-cases (reopens s.reopen_session_id info.session_id)) [
  | inl y ↦
      let (pending, e, n) = reopening s.reopen_session_id info.session_id y in
      let (a, (old, b, c)) = adopt_reopened_sound info s.info s t pending n (rw y at h) in
      (a, inr (old, b, subst (λ r. Continues old info r) (sym e) c))
  | inr n ↦ adopt_repeated_sound info s.info s t s.reopen_session_id (rw n at h)
]

if-err :
    (b : Bool) (x s t : Session) (raised e : SessionError)
    → ◌≡◌ {A = Done} (if b then (ok tt, x) else (err raised, s)) (err e, t)
    → t ≡ s
if-err true x s t raised e h = absurd (cc (ap (λ m. m.0) h))
if-err false x s t raised e h = sym (Outcome-fields h).1

-- A HELLO that is refused leaves the session as it was.
pub adopt-err :
    (info : DeviceInfo) (s t : Session) (e : SessionError) → adopt info s ≡ (err e, t) → t ≡ s
unfolding adopt adopt_reopened adopt_repeated
adopt-err info s t e h = elim (Bool-cases (reopens s.reopen_session_id info.session_id)) [
  | inl y ↦ reopened s.info (rw y at h)
  | inr n ↦ repeated s.info (rw n at h)
]
  where
    reopened : (before : Option DeviceInfo) → adopt_reopened info before s ≡ (err e, t) → t ≡ s
    reopened none h = sym (Outcome-fields h).1
    reopened (some old) h = if-err _ _ s t _ e h

    repeated : (before : Option DeviceInfo) → adopt_repeated info before s ≡ (err e, t) → t ≡ s
    repeated none h = absurd (cc (ap (λ m. m.0) h))
    repeated (some old) h = if-err _ _ s t _ e h
