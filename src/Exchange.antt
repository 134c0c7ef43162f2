-- ===== src/Exchange.antt =====
-- Requests of a session as its clients see them: `DeviceSession._request` of session.py, over an
-- unknown device. A client is a function of the device's state, and returns its value or exception
-- with the state that it leaves.
use esp_iris.Common.{ℕ, List, Result, ok, err, ◌≡◌, refl, ap, ◌⊎◌, inl, inr}
use esp_iris.Wire.Frame.{Frame}
use esp_iris.Session.Records.{nat}

pub record Request : Type 0 where
  pub channel : ℕ
  pub type : ℕ
  pub payload : List ℕ
  pub stream_id : ℕ

-- What `_request` raises: a `TimeoutError`, a `ConnectionError` or `OSError`, and any other exception.
pub data Fault : Type 0 where
  timed_out connection_lost request_refused : Fault

abbrev pub Outcome : Type 0 → Type 0 → Type 0 → Type 0
Outcome E D A = Result E A × D

-- How a device answers: the frame that `_request` returns, or what it raises.
abbrev pub Device : Type 0 → Type 0
Device D = Request → D → Outcome Fault D Frame

abbrev pub Talk : Type 0 → Type 0 → Type 0 → Type 0
Talk E D A = D → Outcome E D A

abbrev pub after : {E D A B : Type 0} → Outcome E D A → (A → Talk E D B) → Outcome E D B
after (ok a, d) f = f a d
after (err e, d) f = (err e, d)

infixl 5 ◌>>=◌ ◌>>◌
abbrev pub ◌>>=◌ : {E D A B : Type 0} → Talk E D A → (A → Talk E D B) → Talk E D B
◌>>=◌ m f d = after (m d) f

abbrev pub ◌>>◌ : {E D B : Type 0} → Talk E D (Unit {0}) → Talk E D B → Talk E D B
◌>>◌ m k d = after (m d) (λ _. k)

-- A computation that does not ask the device.
abbrev pub lift : {E D A : Type 0} → Result E A → Talk E D A
lift r d = (r, d)

abbrev pub return : {E D A : Type 0} → A → Talk E D A
return a d = (ok a, d)

-- `_request`, whose exceptions pass through as `fail` names them.
abbrev pub passed : {E D A : Type 0} → (Fault → E) → Outcome Fault D A → Outcome E D A
passed fail (ok a, d) = (ok a, d)
passed fail (err e, d) = (err (fail e), d)

abbrev pub ask : {E D : Type 0} → (Fault → E) → Device D → Request → Talk E D Frame
ask fail device request d = passed fail (device request d)

-- `finally`, where the exceptions of the last statement are suppressed.
abbrev pub finally : {E D A : Type 0} → Outcome E D A → (D → D) → Outcome E D A
finally (r, d) last = (r, last d)

-- The state in which a suppressed request leaves the device.
abbrev pub state_after : {D : Type 0} → Device D → Request → D → D
state_after device request d = (device request d).1

abbrev pub stream_of : Frame → ℕ
stream_of frame = nat frame.stream_id

abbrev pub type_of : Frame → ℕ
type_of frame = nat frame.type

-- A sequence that returns has returned at each step.
pub after-ok :
    {E D A B : Type 0} (r : Outcome E D A) (f : A → Talk E D B) {b : B} {e : D}
    → after r f ≡ (ok b, e)
    → (a : A) × (d : D) × (r ≡ (ok a, d)) × (f a d ≡ (ok b, e))
after-ok (ok a, d) f h = (a, d, refl, h)
after-ok (err x, d) f h = absurd (cc)

pub passed-ok :
    {E D A : Type 0} (fail : Fault → E) (r : Outcome Fault D A) {a : A} {d : D}
    → passed fail r ≡ (ok a, d)
    → r ≡ (ok a, d)
passed-ok fail (ok a, d) h = cc
passed-ok fail (err e, d) h = absurd (cc)

-- A request whose answer is then checked: the check changes no state, and a value that is returned
-- comes from an answer.
pub checked-state :
    {E D A B : Type 0} (fail : Fault → E) (r : Outcome Fault D A) (check : A → Result E B)
    → (after (passed fail r) (λ a d. (check a, d))).1 ≡ r.1
checked-state fail (ok a, d) check = refl
checked-state fail (err e, d) check = refl

pub checked-ok :
    {E D A B : Type 0} (fail : Fault → E) (r : Outcome Fault D A) (check : A → Result E B) {b : B}
    {d' : D}
    → after (passed fail r) (λ a d. (check a, d)) ≡ (ok b, d')
    → (a : A) × (r ≡ (ok a, d')) × (check a ≡ ok b)
checked-ok fail (ok a, d) check h = (a, cc, ap (λ r. r.0) h)
checked-ok fail (err e, d) check h = absurd (cc)

-- A sequence that raises does so in its first part, or behind it.
pub after-err :
    {E D A B : Type 0} (r : Outcome E D A) (f : A → Talk E D B) {x : E}
    → (after r f).0 ≡ err x
    → (r.0 ≡ err x) ⊎ ((a : A) × (d : D) × (r ≡ (ok a, d)) × ((f a d).0 ≡ err x))
after-err (ok a, d) f h = inr (a, d, refl, h)
after-err (err y, d) f h = inl (cc)
