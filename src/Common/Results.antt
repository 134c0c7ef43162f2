-- ===== src/Common/Results.antt =====
-- Python exceptions as values: a call returns its value or the error that it raises.
use mathlib.Core.Path.{◌≡◌, refl}
use mathlib.Core.Bool.{Bool, true, false}
use mathlib.Core.Option.{Option, none, some}
use mathlib.Core.Logic.{◌⊎◌, inl, inr}

pub data Result (E : Type 0) (A : Type 0) : Type 0 where
  ok : A → Result E A
  err : E → Result E A

infixl 5 ◌>>=◌ ◌>>◌
abbrev pub ◌>>=◌ : {E A B : Type 0} → Result E A → (A → Result E B) → Result E B
ok a >>= f = f a
err e >>= f = err e

abbrev pub ◌>>◌ : {E B : Type 0} → Result E (Unit {0}) → Result E B → Result E B
m >> k = m >>= λ _. k

-- `if condition: raise e`.
abbrev pub raise_if : {E : Type 0} → Bool → E → Result E (Unit {0})
raise_if true e = err e
raise_if false e = ok tt

abbrev pub or_raise : {E A : Type 0} → Option A → E → Result E A
or_raise none e = err e
or_raise (some a) e = ok a

pub Result-cases :
    {E A : Type 0} (r : Result E A) → ((a : A) × (r ≡ ok a)) ⊎ ((e : E) × (r ≡ err e))
Result-cases (ok a) = inl (a, refl)
Result-cases (err e) = inr (e, refl)

-- A guarded call that returns has passed its guard.
pub raise_if-ok :
    {E B : Type 0} (b : Bool) (e : E) (k : Result E B) {v : B}
    → (raise_if b e >> k) ≡ ok v
    → (b ≡ false) × (k ≡ ok v)
raise_if-ok true e k h = absurd (cc)
raise_if-ok false e k h = (refl, h)

pub bind-ok :
    {E A B : Type 0} (m : Result E A) (f : A → Result E B) {v : B}
    → (m >>= f) ≡ ok v
    → (a : A) × (m ≡ ok a) × (f a ≡ ok v)
bind-ok (ok a) f h = (a, refl, h)
bind-ok (err e) f h = absurd (cc)

pub ok-injective : {E A : Type 0} {a b : A} → ◌≡◌ {A = Result E A} (ok a) (ok b) → a ≡ b
ok-injective h = cc

pub some-injective : {A : Type 0} {a b : A} → ◌≡◌ {A = Option A} (some a) (some b) → a ≡ b
some-injective h = cc

-- A call that raises does so in its first part, or behind it.
pub bind-err :
    {E A B : Type 0} (m : Result E A) (f : A → Result E B) {x : E}
    → (m >>= f) ≡ err x
    → (m ≡ err x) ⊎ ((a : A) × (m ≡ ok a) × (f a ≡ err x))
bind-err (ok a) f h = inr (a, refl, h)
bind-err (err e) f h = inl (cc)

pub raise_if-err :
    {E B : Type 0} (b : Bool) (e : E) (k : Result E B) {x : E}
    → (raise_if b e >> k) ≡ err x
    → (e ≡ x) ⊎ (k ≡ err x)
raise_if-err true e k h = inl (cc)
raise_if-err false e k h = inr h
