-- ===== src/Operations/History.antt =====
-- What the rows of the operations go through, whatever requests come.
use Prim.Native.String.{String}
use esp_iris.Common.{
  some-injective, ◌≡◌, ◌≢◌, refl, sym, ◌∙◌, subst, List, [], ◌∷◌, ◌++◌, Option, none, some, Result,
  ok, err, lookup, insert, lookup-insert_same, lookup-insert_other, key-cases, inl, inr, ◌⊎◌,
}
use esp_iris.StateMachine.{
  OperationState, StateTransitionError, operation_value, operation_transition,
}
use esp_iris.StateMachine.Runs.{Run, stop, step, operation_transition_sound}
use esp_iris.Operations.Rows.{
  checked_row, Row, Table, Changes, text_eq, change_row, move_row, move_found, transition_operation,
  create_operation, insert_row, new_row, Request, create, move, serve, serve_all,
}

-- How a row continues another one: the request is the same, and the status comes from it by granted
-- transitions.
pub record Continued (s : OperationState) (old new : Row) : Type 0 where
  pub state : OperationState
  pub states : List OperationState
  pub named : new.status ≡ operation_value state
  pub run : Run s states state
  pub same_device : new.device_id ≡ old.device_id
  pub same_action : new.action ≡ old.action
  pub same_params : new.params_json ≡ old.params_json
  pub same_fingerprint : new.request_fingerprint ≡ old.request_fingerprint
  pub created_ns : new.created_ns ≡ old.created_ns
  pub unmoved : states ≡ [] → new ≡ old

Continued-refl :
    (s : OperationState) (row : Row) → row.status ≡ operation_value s → Continued s row row
Continued-refl s row e = record {
  state = s;
  states = [];
  named = e;
  run = stop;
  same_device = refl;
  same_action = refl;
  same_params = refl;
  same_fingerprint = refl;
  created_ns = refl;
  unmoved = λ none_moved. refl;
}

Run-append :
    {s t u : OperationState} {states later : List OperationState}
    → Run s states t
    → Run t later u
    → Run s (states ++ later) u
Run-append stop run = run
Run-append (step h rest) run = step h (Run-append rest run)

both_empty : (xs ys : List OperationState) → xs ++ ys ≡ [] → (xs ≡ []) × (ys ≡ [])
both_empty [] ys h = (refl, h)
both_empty (x ∷ xs) ys h = absurd (cc)

Continued-trans :
    (s : OperationState) (a b c : Row) (h : Continued s a b)
    → Continued h.state b c
    → Continued s a c
Continued-trans s a b c h k = record {
  state = k.state;
  states = h.states ++ k.states;
  named = k.named;
  run = Run-append h.run k.run;
  same_device = k.same_device ∙ h.same_device;
  same_action = k.same_action ∙ h.same_action;
  same_params = k.same_params ∙ h.same_params;
  same_fingerprint = k.same_fingerprint ∙ h.same_fingerprint;
  created_ns = k.created_ns ∙ h.created_ns;
  unmoved =
      λ e. let (first, later) = both_empty h.states k.states e in k.unmoved later ∙ h.unmoved first;
}

-- The row of an identifier, and what it continues.
abbrev Follows : String → OperationState → Row → Table → Type 0
Follows id s old table = (new : Row) × (lookup id table ≡ some new) × Continued s old new

pub stays :
    (id : String) (s : OperationState) (old : Row) (table after : Table)
    → old.status ≡ operation_value s
    → lookup id table ≡ some old
    → lookup id after ≡ lookup id table
    → Follows id s old after
stays id s old table after named e h = (old, h ∙ e, Continued-refl s old named)

create-Follows :
    (id other : String) (row : Row) (fingerprint : String) (s : OperationState) (old : Row)
    (table : Table)
    → old.status ≡ operation_value s
    → lookup id table ≡ some old
    → (found : Option Row) → lookup other table ≡ found
    → Follows id s old (insert_row other row table found).0
create-Follows id other row fingerprint s old table named e (some row1) k =
    stays id s old table table named e refl
create-Follows id other row fingerprint s old table named e none k =
    stays id s old table (insert other row table) named e (
      lookup-insert_other other id row table
        (λ same. absurd (cc (e, subst (λ i. lookup i table ≡ none) same k))))

moved-Follows :
    (id status : String) (changes : Changes) (s : OperationState) (old : Row) (table : Table)
    → old.status ≡ operation_value s
    → lookup id table ≡ some old
    → (r : Result StateTransitionError OperationState) → operation_transition old.status status ≡ r
    → Follows id s old (move_row id changes table old r).0
unfolding move_row
moved-Follows id status changes s old table named e (err x) k =
    stays id s old table table named e refl
moved-Follows id status changes s old table named e (ok target) k =
    let (source, from, to, allowed) = operation_transition_sound old.status status target k in
    (
      change_row (operation_value target) changes old,
      lookup-insert_same id _ table,
      record {
        state = target;
        states = target ∷ [];
        named = refl;
        run =
            step
              (subst (λ v. operation_transition v (operation_value target) ≡ ok target) named
                (subst (λ v. operation_transition old.status v ≡ ok target) (sym to) k))
              stop;
        same_device = refl;
        same_action = refl;
        same_params = refl;
        same_fingerprint = refl;
        created_ns = refl;
        unmoved = λ e. absurd (cc e);
      },
    )

pub move_row_other :
    (id other : String) (changes : Changes) (table : Table) (row : Row)
    (r : Result StateTransitionError OperationState)
    → other ≢ id
    → lookup id (move_row other changes table row r).0 ≡ lookup id table
unfolding move_row
move_row_other id other changes table row (err x) n = refl
move_row_other id other changes table row (ok target) n =
    lookup-insert_other other id (change_row (operation_value target) changes row) table n

move-Follows :
    (id other status : String) (changes : Changes) (s : OperationState) (old : Row) (table : Table)
    → old.status ≡ operation_value s
    → lookup id table ≡ some old
    → (found : Option Row) → lookup other table ≡ found
    → (other ≡ id) ⊎ (other ≢ id)
    → Follows id s old (move_found other status changes table found).0
unfolding move_found
move-Follows id other status changes s old table named e none k c =
    stays id s old table table named e refl
move-Follows id other status changes s old table named e (some row) k (inl same) =
    let is_old : row ≡ old =
      some-injective (sym (subst (λ i. lookup i table ≡ some row) same k) ∙ e) in
    subst
      (λ i.
        Follows id s old (move_row i changes table row (operation_transition row.status status)).0)
      (sym same)
      (subst
        (λ r.
          Follows id s old (move_row id changes table r (operation_transition r.status status)).0)
        (sym is_old)
        (moved-Follows id status changes s old table named e
          (operation_transition old.status status) refl))
move-Follows id other status changes s old table named e (some row) k (inr n) =
    stays id s old table
      (move_row other changes table row (operation_transition row.status status)).0 named e
      (move_row_other id other changes table row _ n)

serve-Follows :
    (id : String) (request : Request) (s : OperationState) (old : Row) (table : Table)
    → old.status ≡ operation_value s
    → lookup id table ≡ some old
    → Follows id s old (serve request table)
unfolding serve create_operation checked_row transition_operation
serve-Follows id (create other row fingerprint) s old table named e =
    create-Follows id other (new_row row fingerprint) fingerprint s old table named e
      (lookup other table) refl
serve-Follows id (move other status changes) s old table named e =
    move-Follows id other status changes s old table named e (lookup other table) refl
      (key-cases other id)

-- Whatever requests come: a row that is named by a state stays in the table, belongs to the same
-- request, and its status comes from that state by a run of granted transitions.
pub serve_all-Continued :
    (id : String) (requests : List Request) (s : OperationState) (old : Row) (table : Table)
    → old.status ≡ operation_value s
    → lookup id table ≡ some old
    → (new : Row) × (lookup id (serve_all requests table) ≡ some new) × Continued s old new
unfolding serve_all
serve_all-Continued id [] s old table named e = (old, e, Continued-refl s old named)
serve_all-Continued id (request ∷ requests) s old table named e =
    let (mid, found, first) = serve-Follows id request s old table named e in
    let (new, last, rest) =
      serve_all-Continued id requests first.state mid (serve request table) first.named found in
    (new, last, Continued-trans s old mid new first rest)
