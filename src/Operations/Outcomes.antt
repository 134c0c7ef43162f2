-- ===== src/Operations/Outcomes.antt =====
-- How operations end, and what becomes of a request that is sent again.
use Prim.Native.String.{String}
use text.Mathlib.Text.{◌==◌}
use esp_iris.Common.{
  some-injective, Bool, true, false, ◌≡◌, refl, sym, ap, ◌∙◌, subst, if◌then◌else◌, List, none,
  some, ok, err, lookup, lookup-insert_same, inl,
}
use esp_iris.StateMachine.{
  OperationState, operation_value, parse_state, succeeded, queued, running, in_states,
}
use esp_iris.StateMachine.Runs.{Run, Run-running, is_terminal, Run-terminal, parse_state-value}
use esp_iris.Operations.Rows.{
  same_request, with_created, checked_row, Row, Table, text_eq, operation_conflict,
  create_operation, insert_row, new_row, Request, serve_all, require_same_request,
}
use esp_iris.Operations.History.{serve_all-Continued}

-- The row of an operation that has ended is not touched again, whatever requests come.
pub ended_fixed :
    (id : String) (requests : List Request) (s : OperationState) (old : Row) (table : Table)
    → is_terminal s ≡ true
    → old.status ≡ operation_value s
    → lookup id table ≡ some old
    → lookup id (serve_all requests table) ≡ some old
ended_fixed id requests s old table ended named e =
    let (new, found, c) = serve_all-Continued id requests s old table named e in
    found ∙ ap some (c.unmoved (Run-terminal ended c.run).0)

operation_value-injective : (a b : OperationState) → operation_value a ≡ operation_value b → a ≡ b
operation_value-injective a b h =
    some-injective (sym (parse_state-value a) ∙ ap parse_state h ∙ parse_state-value b)

-- An operation that waited in the queue and is recorded as succeeded, whatever requests came since,
-- was recorded as running in between.
pub succeeded-ran :
    (id : String) (requests : List Request) (old new : Row) (table : Table)
    → old.status ≡ operation_value queued
    → lookup id table ≡ some old
    → lookup id (serve_all requests table) ≡ some new
    → new.status ≡ operation_value succeeded
    → (states : List OperationState) × Run queued states succeeded
      × (in_states running states ≡ true)
succeeded-ran id requests old new table named e now done =
    let (last, found, c) = serve_all-Continued id requests queued old table named e in
    let same : last ≡ new = some-injective (sym found ∙ now) in
    let state : c.state ≡ succeeded =
      operation_value-injective c.state succeeded (sym c.named ∙ ap (λ r. r.status) same ∙ done) in
    let run : Run queued c.states succeeded = subst (Run queued c.states) state c.run in
    (c.states, run, Run-running run (inl refl))

registered :
    (id : String) (row : Row) (fingerprint : String) (table : Table)
    → lookup id table ≡ none
    → lookup id (create_operation id row fingerprint table).0 ≡ some (new_row row fingerprint)
unfolding create_operation checked_row
registered id row fingerprint table e =
    simp e (lookup-insert_same id (new_row row fingerprint) table)

create_stored :
    (id : String) (row : Row) (fingerprint old : String) (table : Table) (stored : Row)
    → lookup id table ≡ some stored
    → stored.request_fingerprint ≡ some old
    → create_operation id row fingerprint table
      ≡ (table, if old == fingerprint then ok (stored, false) else err operation_conflict)
unfolding create_operation checked_row require_same_request
create_stored id row fingerprint old table stored e f =
    ap (λ found. checked_row fingerprint (insert_row id (new_row row fingerprint) table found)) e
    ∙ ap
        (λ known. (
          table,
          with_created false
              (if same_request known fingerprint then ok stored else err operation_conflict),
        ))
        f
    ∙ ap (λ r. (table, r)) (answered (old == fingerprint))
  where
    answered :
        (b : Bool)
        → with_created false (if b then ok stored else err operation_conflict)
          ≡ (if b then ok (stored, false) else err operation_conflict)
    answered true = refl
    answered false = refl

-- A request that is registered and comes again later, whatever came in between: the table stays as
-- it is, and the answer is the stored row, as not created, if the fingerprint is that of the first
-- request, and a conflict if it is another one.
pub create-again :
    (id : String) (row again : Row) (first later : String) (requests : List Request) (table : Table)
    (s : OperationState)
    → lookup id table ≡ none
    → row.status ≡ operation_value s
    → let between = serve_all requests (create_operation id row first table).0 in
      (stored : Row) × (lookup id between ≡ some stored)
      × (create_operation id again later between
          ≡ (between, if first == later then ok (stored, false) else err operation_conflict))
create-again id row again first later requests table s e named =
    let (stored, found, c) =
      serve_all-Continued id requests s (new_row row first) (create_operation id row first table).0
        named (registered id row first table e) in
    (stored, found, create_stored id again later first _ stored found c.same_fingerprint)
