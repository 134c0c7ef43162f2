-- ===== src/Operations/During.antt =====
-- The row of an operation while its call is awaited: it stays, and is neither queued nor ended.
use Prim.Native.String.{String}
use text.Mathlib.Text.{◌==◌}
use text.Mathlib.TextEquality.{eq_iff}
use esp_iris.Common.{
  ◌≡◌, ◌≢◌, ◌⊎◌, inl, inr, refl, sym, ap, ◌∙◌, subst, true, List, [], ◌∷◌, All, Option, none, some,
  ok, err, if◌then◌else◌, lookup, insert, lookup-insert_same, lookup-insert_other, key-cases,
  Bool-cases,
}
use esp_iris.StateMachine.{
  OperationState, operation_value, operation_transition, running, preserving_evidence,
  entering_recovery, waiting_recovery, recovery_connected, preparing_ota, erasing, validating_plan,
  transferring, verifying, committing, waiting_device, reconnecting, illegal_transition,
}
use esp_iris.StateMachine.Runs.{permitted, operation_transition_lem}
use esp_iris.Operations.Rows.{
  Row, Table, Changes, text_eq, new_row, insert_row, change_row, checked_row, create_operation,
  move_row, move_found, transition_operation, Request, create, move, serve, serve_all,
}
use esp_iris.Operations.Calls.{is_one_of, stages}
use esp_iris.Operations.History.{move_row_other}

-- A permitted transition of a row that is there.
pub transition_operation_lem :
    (id : String) (s t : OperationState) (changes : Changes) (table : Table) (row : Row)
    → lookup id table ≡ some row
    → row.status ≡ operation_value s
    → permitted s t ≡ true
    → transition_operation id (operation_value t) changes table ≡ (
      insert id (change_row (operation_value t) changes row) table,
      ok (change_row (operation_value t) changes row),
    )
unfolding transition_operation move_found move_row
transition_operation_lem id s t changes table row found named allowed =
    ap (move_found id (operation_value t) changes table) found
    ∙ ap (move_row id changes table row) (
        ap (λ v. operation_transition v (operation_value t)) named
        ∙ operation_transition_lem s t
        ∙ ap (λ b. if b then ok t else err illegal_transition) allowed)

-- Of a state that is neither queued nor ended, every request is granted.
abbrev pub IsActive : OperationState → Type 0
IsActive s = (t : OperationState) → permitted s t ≡ true

-- What comes to the table while a call is awaited: the row of the call is moved to a stage only.
abbrev pub IsDuring : String → Request → Type 0
IsDuring id (create other row fingerprint) = Unit
IsDuring id (move other status changes) = (other ≢ id) ⊎ (is_one_of status stages ≡ true)

abbrev NamesActive : String → Type 0
NamesActive status = (t : OperationState) × (status ≡ operation_value t) × IsActive t

is_one_of-All :
    (P : String → Type 0) (status : String) (texts : List String)
    → All P texts
    → is_one_of status texts ≡ true
    → P status
is_one_of-All P status [] all h = absurd (cc)
is_one_of-All P status (t ∷ texts) all h = elim (Bool-cases (t == status)) [
  | inl y ↦ subst P ((eq_iff t status).0 y) all.0
  | inr n ↦ is_one_of-All P status texts all.1 (rw n at h)
]

stages-active : All NamesActive stages
unfolding operation_value
stages-active = (
  (running, refl, λ t. refl),
  (
    (preserving_evidence, refl, λ t. refl),
    (
      (entering_recovery, refl, λ t. refl),
      (
        (waiting_recovery, refl, λ t. refl),
        (
          (recovery_connected, refl, λ t. refl),
          (
            (preparing_ota, refl, λ t. refl),
            (
              (erasing, refl, λ t. refl),
              (
                (validating_plan, refl, λ t. refl),
                (
                  (transferring, refl, λ t. refl),
                  (
                    (verifying, refl, λ t. refl),
                    (
                      (committing, refl, λ t. refl),
                      ((waiting_device, refl, λ t. refl), ((reconnecting, refl, λ t. refl), tt)),
                    ),
                  ),
                ),
              ),
            ),
          ),
        ),
      ),
    ),
  ),
)

-- The row of an identifier, of an action, while its call is awaited.
abbrev pub IsCalled : String → String → Table → Type 0
IsCalled id action table =
    (row : Row) × (s : OperationState) × (lookup id table ≡ some row)
    × (row.status ≡ operation_value s)
    × IsActive s
    × (row.action ≡ action)

insert_row-keeps :
    (id other : String) (row old : Row) (table : Table)
    → lookup id table ≡ some old
    → (found : Option Row) → lookup other table ≡ found
    → lookup id (insert_row other row table found).0 ≡ some old
insert_row-keeps id other row old table e (some stored) k = e
insert_row-keeps id other row old table e none k =
    lookup-insert_other other id row table
      (λ same. absurd (cc (e, subst (λ i. lookup i table ≡ none) same k)))
    ∙ e

move_found-keeps :
    (id other status : String) (changes : Changes) (table : Table) (found : Option Row)
    → other ≢ id
    → lookup id (move_found other status changes table found).0 ≡ lookup id table
unfolding move_found
move_found-keeps id other status changes table none n = refl
move_found-keeps id other status changes table (some row) n =
    move_row_other id other changes table row (operation_transition row.status status) n

staged :
    (id action status : String) (changes : Changes) (table : Table)
    → is_one_of status stages ≡ true
    → IsCalled id action table
    → IsCalled id action (transition_operation id status changes table).0
staged id action status changes table h (row, s, found, named, active, same) =
    let (t, e, still) = is_one_of-All NamesActive status stages stages-active h in
    let moved = change_row (operation_value t) changes row in
    subst (λ v. IsCalled id action (transition_operation id v changes table).0) (sym e)
      (subst (λ r. IsCalled id action r.0)
        (sym (transition_operation_lem id s t changes table row found named (active t)))
        (moved, t, lookup-insert_same id moved table, refl, still, same))

serve-IsCalled :
    (id action : String) (request : Request) (table : Table)
    → IsDuring id request
    → IsCalled id action table
    → IsCalled id action (serve request table)
unfolding serve create_operation checked_row transition_operation
serve-IsCalled id action (create other row fingerprint) table h
      (old, s, found, named, active, same) =
    (
      old,
      s,
      insert_row-keeps id other (new_row row fingerprint) old table found (lookup other table) refl,
      named,
      active,
      same,
    )
serve-IsCalled id action (move other status changes) table h (old, s, found, named, active, same) =
    elim (key-cases other id) [
      | inr n ↦ (
        old,
        s,
        move_found-keeps id other status changes table (lookup other table) n ∙ found,
        named,
        active,
        same,
      )
      | inl e ↦ elim h [
        | inl n ↦ absurd (n e)
        | inr stage ↦
            subst (λ i. IsCalled id action (transition_operation i status changes table).0) (sym e)
              (staged id action status changes table stage (old, s, found, named, active, same))
      ]
    ]

pub serve_all-IsCalled :
    (id action : String) (requests : List Request) (table : Table)
    → All (IsDuring id) requests
    → IsCalled id action table
    → IsCalled id action (serve_all requests table)
unfolding serve_all
serve_all-IsCalled id action [] table during called = called
serve_all-IsCalled id action (request ∷ requests) table during called =
    serve_all-IsCalled id action requests (serve request table) during.1
      (serve-IsCalled id action request table during.0 called)
