-- ===== src/Wire/Codes/Enum.antt =====
-- Python's `enum.IntEnum` as an interface: a value for each member, and the lookup of a member by its
-- value. A member whose value an earlier one has already would be an alias of that one; `distinct`
-- says that there is none.
use esp_iris.Common.{ℕ, ◌==◌, if◌then◌else◌, ◌≡◌, List, [], ◌∷◌, Option, none, some}

unfoldable pub of_code : {A : Type 0} → (A → ℕ) → List A → ℕ → Option A
of_code code [] n = none
of_code code (a ∷ rest) n = if code a == n then some a else of_code code rest n

pub record IntEnum (A : Type 0) : Type 0 where
  pub code : A → ℕ
  pub members : List A
  pub distinct : (x : A) → of_code code members (code x) ≡ some x

-- `int(member)`, and the member of a value, if there is one.
abbrev pub int : {A : Type 0} ⦃e : IntEnum A⦄ → A → ℕ
int ⦃e⦄ = e.code

unfoldable pub from_int : {A : Type 0} ⦃e : IntEnum A⦄ → ℕ → Option A
unfolding of_code
from_int ⦃e⦄ = of_code e.code e.members
