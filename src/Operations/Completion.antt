-- ===== src/Operations/Completion.antt =====
-- A call that ends leaves its operation ended.
use Prim.Native.String.{String}
use esp_iris.Common.{
  ℕ, ◌≡◌, ◌≢◌, refl, sym, ap, ◌∙◌, subst, Bool, true, false, List, All, if◌then◌else◌, Option, none,
  some, Result, ok, err, lookup, insert, lookup-insert_same, Bool-cases, inl, inr,
}
use esp_iris.StateMachine.{
  OperationState, operation_value, running, succeeded, failed, interrupted, outcome_unknown,
}
use esp_iris.StateMachine.Runs.{permitted, is_terminal}
use esp_iris.Operations.Rows.{
  Row, Table, OperationError, event_failed, text_eq, Request, serve_all, change_row,
}
use esp_iris.Operations.During.{transition_operation_lem, IsDuring, IsCalled, serve_all-IsCalled}
use esp_iris.Operations.Calls.{
  CallEnd, unsummarised, emit, returned, task_cancelled, operation_cancelled, outcome_uncertain,
  call_failed, end_status, end_call, end_changes, after_start, run_operation, action_of, is_one_of,
  device_writes, no_changes,
}

-- The state that the end of a call stands for.
abbrev pub end_state : String → CallEnd → OperationState
end_state action (returned summary) = succeeded
end_state action task_cancelled =
    if is_one_of action device_writes then outcome_unknown else interrupted
end_state action operation_cancelled = failed
end_state action unsummarised = failed
end_state action (outcome_uncertain message) = outcome_unknown
end_state action (call_failed message) = failed

end_state-ends : (action : String) (ended : CallEnd) → is_terminal (end_state action ended) ≡ true
end_state-ends action (returned summary) = refl
end_state-ends action operation_cancelled = refl
end_state-ends action unsummarised = refl
end_state-ends action (outcome_uncertain message) = refl
end_state-ends action (call_failed message) = refl
end_state-ends action task_cancelled = elim (Bool-cases (is_one_of action device_writes)) [
  | inl y ↦ rw y refl
  | inr n ↦ rw n refl
]

abbrev interrupted_error : String
interrupted_error = "gateway task was interrupted; device writes were not replayed"

-- The ends of a call that move its row.
abbrev pub EndsRow : CallEnd → Type 0
EndsRow ended = (ended ≢ operation_cancelled) × (ended ≢ unsummarised)

end_status_lem :
    (action : String) (ended : CallEnd)
    → EndsRow ended
    → (error : Option String) × (end_status action ended
        ≡ some (operation_value (end_state action ended), error))
unfolding end_status operation_value
end_status_lem action (returned summary) n = (none, refl)
end_status_lem action operation_cancelled n = absurd (n.0 refl)
end_status_lem action unsummarised n = absurd (n.1 refl)
end_status_lem action (outcome_uncertain message) n = (_, refl)
end_status_lem action (call_failed message) n = (_, refl)
end_status_lem action task_cancelled n = elim (Bool-cases (is_one_of action device_writes)) [
  | inl y ↦ (some interrupted_error, rw y refl)
  | inr m ↦ (some interrupted_error, rw m refl)
]

-- The row of an operation whose call has ended, and what `_run` gives for it.
abbrev pub IsEnded : String → String → CallEnd → Bool → Table × Result OperationError Row → Type 0
IsEnded id action ended emitted outcome =
    (new : Row) × (lookup id outcome.0 ≡ some new)
    × (new.status ≡ operation_value (end_state action ended))
    × (is_terminal (end_state action ended) ≡ true)
    × (outcome.1 ≡ (if emitted then ok new else err event_failed))

emit-IsEnded :
    (id action : String) (ended : CallEnd) (emitted : Bool) (table : Table) (new : Row)
    → lookup id table ≡ some new
    → new.status ≡ operation_value (end_state action ended)
    → IsEnded id action ended emitted (emit emitted (table, ok new))
emit-IsEnded id action ended true table new found named =
    (new, found, named, end_state-ends action ended, refl)
emit-IsEnded id action ended false table new found named =
    (new, found, named, end_state-ends action ended, refl)

module _ (finish_progress : String → String) where
  ended_row :
      (id action : String) (ended : CallEnd) (emitted : Bool) (finished_ns : ℕ) (table : Table)
      → EndsRow ended
      → IsCalled id action table
      → IsEnded id action ended emitted (
          emit emitted (
            end_call finish_progress id ended finished_ns table
              (end_status (action_of (lookup id table)) ended)))
  unfolding end_call
  ended_row id action ended emitted finished_ns table n (row, s, found, named, active, same) =
      let known : action_of (lookup id table) ≡ action = ap action_of found ∙ same in
      let (error, e) = end_status_lem action ended n in
      let changes = end_changes finish_progress ended error finished_ns (lookup id table) in
      let new = change_row (operation_value (end_state action ended)) changes row in
      subst
        (λ status.
          IsEnded id action ended emitted
            (emit emitted (end_call finish_progress id ended finished_ns table status)))
        (sym (ap (λ a. end_status a ended) known ∙ e))
        (subst (λ r. IsEnded id action ended emitted (emit emitted r))
          (sym (
            transition_operation_lem id s (end_state action ended) changes table row found named
              (active (end_state action ended))))
          (emit-IsEnded id action ended emitted (insert id new table) new
            (lookup-insert_same id new table) refl))

  -- The call of an operation that may start, and whose first event goes out, ends its row, whatever
  -- the call and other tasks do to the table meanwhile, if they move this row to stages only: to
  -- `succeeded` if the call returns, `failed` if it raises, `outcome_unknown` after a timeout or an
  -- interrupted device write, and `interrupted` after another interruption. Not so if the call
  -- raises `OperationCancelled`, or its result has no summary. The last event may fail: the row has
  -- ended by then.
  pub run_operation-IsEnded :
      (id : String) (during : List Request) (ended : CallEnd) (end_emitted : Bool)
      (started_ns finished_ns : ℕ) (table : Table) (row : Row) (s : OperationState)
      → lookup id table ≡ some row
      → row.status ≡ operation_value s
      → permitted s running ≡ true
      → All (IsDuring id) during
      → EndsRow ended
      → IsEnded id row.action ended end_emitted (
          run_operation finish_progress id during ended true end_emitted started_ns finished_ns
            table)
  unfolding run_operation after_start operation_value
  run_operation-IsEnded id during ended end_emitted started_ns finished_ns table row s found named
        allowed staging n =
      let changes = record no_changes { started_ns = some started_ns; queue_position = some 0 } in
      let new = change_row (operation_value running) changes row in
      let started = insert id new table in
      let called : IsCalled id row.action (serve_all during started) =
        serve_all-IsCalled id row.action during started staging
          (new, running, lookup-insert_same id new table, refl, λ t. refl, refl) in
      subst
        (λ r.
          IsEnded id row.action ended end_emitted
            (after_start finish_progress id during ended end_emitted finished_ns (emit true r)))
        (sym (transition_operation_lem id s running changes table row found named allowed))
        (ended_row id row.action ended end_emitted finished_ns (serve_all during started) n called)
