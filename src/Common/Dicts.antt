-- ===== src/Common/Dicts.antt =====
-- A Python dictionary as an association list in insertion order. `K` is compared by `eq`.
use Prim.Native.Nat.{ℕ}
use mathlib.Core.Path.{◌≡◌, refl, ap, ◌∙◌}
use mathlib.Core.Logic.{◌↔◌, ◌≢◌, ◌⊎◌, inl, inr}
use mathlib.Core.Bool.{Bool, true, false}
use mathlib.Core.List.{List, [], ◌∷◌}
use mathlib.Core.Option.{Option, none, some}
use native.Mathlib.Omega.{arith}
use esp_iris.Common.Tests.{if◌then◌else◌, ◌==◌, ==_iff}

pub record Eq (K : Type 0) : Type 0 where
  pub beq : K → K → Bool
  pub beq_iff : (a b : K) → (beq a b ≡ true) ↔ (a ≡ b)

-- `abbrev`, so that tests on numbers compute under the tactics.
instance abbrev pub nat_eq : Eq ℕ
nat_eq = record { beq = ◌==◌; beq_iff = ==_iff }

module _ {K V : Type 0} ⦃e : Eq K⦄ where
  -- `d.get(k)`
  unfoldable pub lookup : K → List (K × V) → Option V
  lookup k [] = none
  lookup k ((j, v) ∷ m) = if e.beq j k then some v else lookup k m

  -- `d[k] = v`: an old key keeps its place, a new one goes last.
  unfoldable pub insert : K → V → List (K × V) → List (K × V)
  insert k v [] = (k, v) ∷ []
  insert k v ((j, w) ∷ m) = if e.beq j k then (j, v) ∷ m else (j, w) ∷ insert k v m

  -- `d.pop(k, None)`
  unfoldable pub remove : K → List (K × V) → List (K × V)
  remove k [] = []
  remove k ((j, w) ∷ m) = if e.beq j k then remove k m else (j, w) ∷ remove k m

  pub lookup-insert :
      (k j : K) (v : V) (m : List (K × V))
      → lookup j (insert k v m) ≡ (if e.beq k j then some v else lookup j m)
  unfolding lookup insert
  lookup-insert k j v [] = refl
  lookup-insert k j v ((i, w) ∷ m) =
      ground (arith, e.beq_iff k j, e.beq_iff i k, e.beq_iff i j, lookup-insert k j v m)

  pub lookup-insert_same : (k : K) (v : V) (m : List (K × V)) → lookup k (insert k v m) ≡ some v
  lookup-insert_same k v m =
      lookup-insert k k v m ∙ ap (λ b. if b then some v else lookup k m) ((e.beq_iff k k).1 refl)

  pub lookup-insert_other :
      (k j : K) (v : V) (m : List (K × V)) → k ≢ j → lookup j (insert k v m) ≡ lookup j m
  lookup-insert_other k j v m n =
      lookup-insert k j v m ∙ ap (λ b. if b then some v else lookup j m) (unequal (e.beq k j) refl)
    where
      unequal : (b : Bool) → e.beq k j ≡ b → b ≡ false
      unequal true h = absurd (n ((e.beq_iff k j).0 h))
      unequal false h = refl

-- Two keys are equal or not.
module _ {K : Type 0} ⦃e : Eq K⦄ where
  pub key-cases : (k j : K) → (k ≡ j) ⊎ (k ≢ j)
  key-cases k j = split (e.beq k j) refl
    where
      split : (b : Bool) → e.beq k j ≡ b → (k ≡ j) ⊎ (k ≢ j)
      split true h = inl ((e.beq_iff k j).0 h)
      split false h = inr (λ same. absurd (cc (h, (e.beq_iff k j).1 same)))
