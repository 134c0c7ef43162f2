-- ===== src/Operations/Rows.antt =====
-- The table of operations of store.py, the identity of a request, and `_transition` and the entry of
-- `execute` in operations.py.
use Prim.Native.String.{String}
use text.Mathlib.Text.{◌==◌}
use text.Mathlib.TextEquality.{eq_iff}
use esp_iris.Common.{
  ℕ, Bool, true, false, if◌then◌else◌, List, [], ◌∷◌, Option, none, some, Result, ok, err, Eq,
  lookup, insert,
}
use esp_iris.StateMachine.{
  OperationState, StateTransitionError, operation_value, operation_transition,
}

instance abbrev pub text_eq : Eq String
text_eq = record { beq = ◌==◌; beq_iff = eq_iff }

-- A row of the table `operations`; its JSON columns are texts.
pub record Row : Type 0 where
  pub device_id : String
  pub actor_type : String
  pub actor_name : String
  pub action : String
  pub params_json : String
  pub status : String
  pub result_json : Option String
  pub error : Option String
  pub created_ns : ℕ
  pub started_ns : Option ℕ
  pub finished_ns : Option ℕ
  pub queue_position : ℕ
  pub progress_json : Option String
  pub request_fingerprint : Option String

-- The rows by their primary key, `operation_id`.
abbrev pub Table : Type 0
Table = List (String × Row)

-- The columns that `update_operation` is told to set.
pub record Changes : Type 0 where
  pub result_json : Option String
  pub error : Option String
  pub started_ns : Option ℕ
  pub finished_ns : Option ℕ
  pub queue_position : Option ℕ
  pub progress_json : Option String

pub data OperationError : Type 0 where
  operation_conflict missing_operation device_maintenance : OperationError
  invalid_stage cancelled_call event_failed summary_failed : OperationError
  bad_transition : StateTransitionError → OperationError

abbrev pub or_old {ℓ} : {A : Type ℓ} → Option A → A → A
or_old none old = old
or_old (some new) old = new

abbrev pub or_kept {ℓ} : {A : Type ℓ} → Option A → Option A → Option A
or_kept none old = old
or_kept (some new) old = some new

-- `update_operation`, for a status and other columns.
abbrev pub change_row : String → Changes → Row → Row
change_row status changes row = record row {
  status = status;
  result_json = or_kept changes.result_json row.result_json;
  error = or_kept changes.error row.error;
  started_ns = or_kept changes.started_ns row.started_ns;
  finished_ns = or_kept changes.finished_ns row.finished_ns;
  queue_position = or_old changes.queue_position row.queue_position;
  progress_json = or_kept changes.progress_json row.progress_json;
}

-- `existing.get("request_fingerprint") == fingerprint`; a legacy row has none.
abbrev pub same_request : Option String → String → Bool
same_request none fingerprint = false
same_request (some old) fingerprint = old == fingerprint

-- `require_same_request`
unfoldable pub require_same_request : Row → String → Result OperationError Row
require_same_request row fingerprint =
    if same_request row.request_fingerprint fingerprint then ok row else err operation_conflict

-- The row of an INSERT: the columns that it does not list are NULL.
abbrev pub new_row : Row → String → Row
new_row row fingerprint = record row {
  result_json = none;
  error = none;
  started_ns = none;
  finished_ns = none;
  progress_json = none;
  request_fingerprint = some fingerprint;
}

-- `INSERT ... ON CONFLICT(operation_id) DO NOTHING`, and whether a row was inserted.
abbrev pub insert_row : String → Row → Table → Option Row → Table × Row × Bool
insert_row id row table none = (insert id row table, row, true)
insert_row id row table (some old) = (table, old, false)

abbrev pub with_created : Bool → Result OperationError Row → Result OperationError (Row × Bool)
with_created created (ok row) = ok (row, created)
with_created created (err e) = err e

unfoldable pub checked_row :
    String → Table × Row × Bool → Table × Result OperationError (Row × Bool)
unfolding require_same_request
checked_row fingerprint (table, stored, created) =
    (table, with_created created (require_same_request stored fingerprint))

-- `create_operation`: the table, and the stored row with `created`, or a conflict.
unfoldable pub create_operation :
    String → Row → String → Table → Table × Result OperationError (Row × Bool)
unfolding checked_row
create_operation id row fingerprint table =
    checked_row fingerprint (insert_row id (new_row row fingerprint) table (lookup id table))

unfoldable pub move_row :
    String
    → Changes
    → Table
    → Row
    → Result StateTransitionError OperationState
    → Table × Result OperationError Row
move_row id changes table row (err e) = (table, err (bad_transition e))
move_row id changes table row (ok target) =
    let new = change_row (operation_value target) changes row in (insert id new table, ok new)

unfoldable pub move_found :
    String → String → Changes → Table → Option Row → Table × Result OperationError Row
unfolding move_row
move_found id status changes table none = (table, err missing_operation)
move_found id status changes table (some row) =
    move_row id changes table row (operation_transition row.status status)

-- `_transition`
unfoldable pub transition_operation :
    String → String → Changes → Table → Table × Result OperationError Row
unfolding move_found
transition_operation id status changes table = move_found id status changes table (lookup id table)

-- What happens to the table: requests that are registered, and transitions, whoever asks for them.
pub data Request : Type 0 where
  create : String → Row → String → Request
  move : String → String → Changes → Request

-- An exception leaves the table as the call has left it.
unfoldable pub serve : Request → Table → Table
unfolding create_operation transition_operation
serve (create id row fingerprint) table = (create_operation id row fingerprint table).0
serve (move id status changes) table = (transition_operation id status changes table).0

unfoldable pub serve_all : List Request → Table → Table
unfolding serve
serve_all [] table = table
serve_all (request ∷ requests) table = serve_all requests (serve request table)
