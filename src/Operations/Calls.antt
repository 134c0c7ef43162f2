-- ===== src/Operations/Calls.antt =====
-- `_run` and `stage` of operations.py: how the call of an operation moves its row to the end.
use Prim.Native.String.{String}
use text.Mathlib.Text.{◌==◌}
use esp_iris.Common.{
  ℕ, ◌||◌, Bool, true, false, if◌then◌else◌, List, [], ◌∷◌, Option, none, some, Result, ok, err,
  lookup,
}
use esp_iris.Operations.Rows.{
  cancelled_call, event_failed, summary_failed, Row, Table, Changes, OperationError, invalid_stage,
  transition_operation, text_eq, Request, serve_all,
}

abbrev pub no_changes : Changes
no_changes = record {
  result_json = none;
  error = none;
  started_ns = none;
  finished_ns = none;
  queue_position = none;
  progress_json = none;
}

abbrev pub is_one_of : String → List String → Bool
is_one_of text [] = false
is_one_of text (t ∷ texts) = (t == text) || is_one_of text texts

abbrev pub stages : List String
stages =
    "running" ∷ "preserving_evidence" ∷ "entering_recovery" ∷ "waiting_recovery"
    ∷ "recovery_connected" ∷ "preparing_ota" ∷ "erasing" ∷ "validating_plan" ∷ "transferring"
    ∷ "verifying" ∷ "committing" ∷ "waiting_device" ∷ "reconnecting" ∷ []

-- `stage`
unfoldable pub stage : String → String → Table → Table × Result OperationError Row
unfolding transition_operation
stage id status table =
    if is_one_of status stages
    then transition_operation id status no_changes table
    else (table, err invalid_stage)

-- How the call of an operation ends: it returns a result, of which `result_summary` and `_safe_value`
-- make a summary, or raise; its task is cancelled; or it raises `OperationCancelled`, an unknown
-- outcome or a timeout, or anything else.
pub data CallEnd : Type 0 where
  returned : String → CallEnd
  unsummarised task_cancelled operation_cancelled : CallEnd
  outcome_uncertain call_failed : String → CallEnd

-- The actions that may have changed the device before they were interrupted.
abbrev pub device_writes : List String
device_writes = "firmware.ota" ∷ "firmware.system_update" ∷ "device.restart" ∷ "rpc.raw" ∷ []

-- The status and the error that the end of a call asks for.
unfoldable pub end_status : String → CallEnd → Option (String × Option String)
end_status action (returned summary) = some ("succeeded", none)
end_status action unsummarised = none
end_status action task_cancelled = some (
  if is_one_of action device_writes then "outcome_unknown" else "interrupted",
  some "gateway task was interrupted; device writes were not replayed",
)
end_status action operation_cancelled = none
end_status action (outcome_uncertain message) = some (
  "outcome_unknown",
  some (if message == "" then "device outcome could not be established" else message),
)
end_status action (call_failed message) = some ("failed", some message)

-- What is raised where the row is not moved.
abbrev pub unmoved_error : CallEnd → OperationError
unmoved_error unsummarised = summary_failed
unmoved_error _ = cancelled_call

-- `_emit` of a row that was moved; the table is moved before the sink of the events raises.
abbrev pub emit : Bool → Table × Result OperationError Row → Table × Result OperationError Row
emit true outcome = outcome
emit false (table, err e) = (table, err e)
emit false (table, ok row) = (table, err event_failed)

abbrev pub summary_of : CallEnd → Option String
summary_of (returned summary) = some summary
summary_of _ = none

abbrev pub action_of : Option Row → String
action_of none = ""
action_of (some row) = row.action

-- The columns at the end. `finish_progress` sets the stage and the measure in the JSON of a progress.
module _ (finish_progress : String → String) where
  abbrev pub end_progress : CallEnd → Option Row → Option String
  end_progress (returned summary) none = none
  end_progress (returned summary) (some row) = elim row.progress_json [
    | none ↦ some "null"
    | some progress ↦ some (finish_progress progress)
  ]
  end_progress _ row = none

  unfoldable pub end_changes : CallEnd → Option String → ℕ → Option Row → Changes
  end_changes ended error finished_ns row = record no_changes {
    result_json = summary_of ended;
    error = error;
    finished_ns = some finished_ns;
    progress_json = end_progress ended row;
  }

  unfoldable pub end_call :
      String
      → CallEnd
      → ℕ
      → Table
      → Option (String × Option String)
      → Table × Result OperationError Row
  unfolding end_changes transition_operation
  end_call id ended finished_ns table none = (table, err (unmoved_error ended))
  end_call id ended finished_ns table (some (status, error)) =
      transition_operation id status (end_changes ended error finished_ns (lookup id table)) table

  -- `_run` behind its first transition and its event. While the call is awaited, it moves its own row
  -- by `stage` and `progress`, and other tasks use the table: `during` are their requests, in order.
  unfoldable pub after_start :
      String
      → List Request
      → CallEnd
      → Bool
      → ℕ
      → Table × Result OperationError Row
      → Table × Result OperationError Row
  unfolding end_call end_status serve_all
  after_start id during ended end_emitted finished_ns (table, err e) = (table, err e)
  after_start id during ended end_emitted finished_ns (table, ok row) =
      let called = serve_all during table in
      emit end_emitted
        (end_call id ended finished_ns called (end_status (action_of (lookup id called)) ended))

  -- `_run`; the Booleans tell whether the sink takes the first event, and the last. Where the call
  -- has failed, the row of the last event stands for the exception, which is raised behind it.
  unfoldable pub run_operation :
      String
      → List Request
      → CallEnd
      → Bool
      → Bool
      → ℕ
      → ℕ
      → Table
      → Table × Result OperationError Row
  unfolding after_start transition_operation
  run_operation id during ended start_emitted end_emitted started_ns finished_ns table =
      after_start id during ended end_emitted finished_ns (
        emit start_emitted (
          transition_operation id "running"
            (record no_changes { started_ns = some started_ns; queue_position = some 0 }) table))
