-- ===== src/Operations/Tests.antt =====
-- The operations on concrete requests, and a device that goes into maintenance.
use Prim.Native.String.{String}
use esp_iris.Common.{
  ◌≡◌, inr, refl, true, false, List, All, [], ◌∷◌, none, some, err, lookup, insert,
}
use esp_iris.StateMachine.{
  OperationState, operation_value, queued, running, succeeded, in_states, operation_transition,
}
use esp_iris.StateMachine.Runs.{Run}
use esp_iris.Operations.Rows.{
  Row, Table, text_eq, create_operation, Request, create, move, serve, serve_all,
  operation_conflict,
}
use esp_iris.Operations.Calls.{no_changes, run_operation, task_cancelled}
use esp_iris.Operations.During.{IsDuring}
use esp_iris.Operations.Completion.{IsEnded, EndsRow, run_operation-IsEnded}
use esp_iris.Operations.History.{Continued, serve_all-Continued}
use esp_iris.Operations.Outcomes.{ended_fixed, succeeded-ran, create-again}
use esp_iris.Operations.Gate.{
  Gate, maintenance, operation, initial, Reach, here, next, enter, ask_for_maintenance,
  run_unlocked, maintain, begin_maintenance, enter_operation, ask_maintenance, start_unlocked,
}

abbrev restart_row : Row
restart_row = record {
  device_id = "esp-1";
  actor_type = "human";
  actor_name = "ada";
  action = "device.restart";
  params_json = "{}";
  status = "queued";
  result_json = none;
  error = none;
  created_ns = 5;
  started_ns = none;
  finished_ns = none;
  queue_position = 0;
  progress_json = none;
  request_fingerprint = some "f1";
}

abbrev one_row : Table
one_row = ("op-1", restart_row) ∷ []

abbrev ended_row : Table
ended_row = ("op-1", record restart_row { status = "succeeded" }) ∷ []

abbrev started_and_done : List Request
started_and_done =
    create "op-1" restart_row "f1"
    ∷ move "op-1" "running" no_changes
    ∷ move "op-1" "succeeded" no_changes
    ∷ move "op-1" "failed" no_changes
    ∷ []

named_queued : restart_row.status ≡ operation_value queued
unfolding operation_value
named_queued = refl

named_succeeded : "succeeded" ≡ operation_value succeeded
unfolding operation_value
named_succeeded = refl

abbrev other_row : Table
other_row = ("op-2", restart_row) ∷ []

found_one : lookup "op-1" one_row ≡ some restart_row
unfolding lookup
found_one = refl

serve_all-Continued_example :
    (new : Row) × (lookup "op-1" (serve_all started_and_done one_row) ≡ some new)
    × Continued queued restart_row new
serve_all-Continued_example =
    serve_all-Continued "op-1" started_and_done queued restart_row one_row named_queued found_one

found_ended : lookup "op-1" ended_row ≡ some (record restart_row { status = "succeeded" })
unfolding lookup
found_ended = refl

ended_fixed_example :
    lookup "op-1" (serve_all started_and_done ended_row)
    ≡ some (record restart_row { status = "succeeded" })
ended_fixed_example =
    ended_fixed "op-1" started_and_done succeeded (record restart_row { status = "succeeded" })
      ended_row refl named_succeeded found_ended

done_row :
    lookup "op-1" (serve_all started_and_done one_row)
    ≡ some (record restart_row { status = "succeeded" })
unfolding serve_all serve lookup operation_transition insert
done_row = refl

succeeded-ran_example :
    (states : List OperationState) × Run queued states succeeded × (in_states running states ≡ true)
succeeded-ran_example =
    succeeded-ran "op-1" started_and_done restart_row (record restart_row { status = "succeeded" })
      one_row named_queued found_one done_row named_succeeded

found_none : lookup "op-1" other_row ≡ none
unfolding lookup
found_none = refl

create-again_example :
    (stored : Row) × (lookup "op-1"
        (serve_all started_and_done (create_operation "op-1" restart_row "f1" other_row).0)
      ≡ some stored)
    × (create_operation "op-1" restart_row "f2"
          (serve_all started_and_done (create_operation "op-1" restart_row "f1" other_row).0)
        ≡ (
          serve_all started_and_done (create_operation "op-1" restart_row "f1" other_row).0,
          err operation_conflict,
        ))
create-again_example =
    create-again "op-1" restart_row restart_row "f1" "f2" started_and_done other_row queued
      found_none named_queued

-- A serialized call and an unserialized one run at once, and maintenance waits for the first.
abbrev both_run : Gate
both_run = record {
  lock = some (operation "a");
  waiters = maintenance ∷ [];
  entering = [];
  running = "a" ∷ [];
  unserialized = [];
  unlocked = "b" ∷ [];
  maintenance_pending = true;
  maintenance_active = false;
}

-- A call without the lock starts during maintenance, if its operation has passed the gate before.
abbrev maintained : Gate
maintained = record {
  lock = some maintenance;
  waiters = [];
  entering = [];
  running = [];
  unserialized = [];
  unlocked = "b" ∷ [];
  maintenance_pending = false;
  maintenance_active = true;
}

late_call : Reach (initial false) maintained
unfolding enter_operation ask_maintenance begin_maintenance start_unlocked
late_call = next (enter false "b" refl) (
    next (ask_for_maintenance refl) (next (maintain refl refl) (next (run_unlocked "b" refl) here)))

-- The call moves its row to a stage, and another operation is registered; then the task is cancelled.
abbrev meanwhile : List Request
meanwhile = move "op-1" "transferring" no_changes ∷ create "op-3" restart_row "f3" ∷ []

meanwhile-IsDuring : All (IsDuring "op-1") meanwhile
meanwhile-IsDuring = (inr refl, (tt, tt))

cancelled-EndsRow : EndsRow task_cancelled
cancelled-EndsRow = (λ e. cc e, λ e. cc e)

run_operation-IsEnded_example :
    IsEnded "op-1" "device.restart" task_cancelled false
      (run_operation (λ progress. progress) "op-1" meanwhile task_cancelled true false 8 9 one_row)
run_operation-IsEnded_example =
    run_operation-IsEnded (λ progress. progress) "op-1" meanwhile task_cancelled false 8 9 one_row
      restart_row queued found_one named_queued refl meanwhile-IsDuring cancelled-EndsRow
