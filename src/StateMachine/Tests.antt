-- ===== src/StateMachine/Tests.antt =====
-- Runs of the state machines on concrete states.
use esp_iris.Common.{◌≡◌, refl, ◌≤◌, ◌+◌, true, length, List, [], ◌∷◌, inl, ok}
use esp_iris.StateMachine.{
  OperationState, queued, running, erasing, succeeded, cancelled, operation_value,
  operation_transition, in_states, authenticated, close, negotiating, closed, session_transition,
}
use esp_iris.StateMachine.Runs.{
  Run, stop, step, permitted, operation_transition_lem, operation_transition_sound, Run-terminal,
  Run-running, rank, session_run, rank-session_run,
}

from_queue : operation_transition "queued" "running" ≡ ok running
unfolding operation_transition
from_queue = refl

operation_transition_lem_example :
    operation_transition (operation_value erasing) (operation_value succeeded) ≡ ok succeeded
operation_transition_lem_example = operation_transition_lem erasing succeeded

operation_transition_sound_example :
    (s : OperationState) × (operation_value s ≡ "queued")
    × (operation_value running ≡ "running")
    × (permitted s running ≡ true)
operation_transition_sound_example =
    operation_transition_sound "queued" "running" running from_queue

erased_and_done : Run queued (running ∷ erasing ∷ succeeded ∷ []) succeeded
erased_and_done =
    step (operation_transition_lem queued running)
      (step (operation_transition_lem running erasing) (step operation_transition_lem_example stop))

Run-running_example : in_states running (running ∷ erasing ∷ succeeded ∷ []) ≡ true
Run-running_example = Run-running erased_and_done (inl refl)

Run-terminal_example : (◌≡◌ {A = List OperationState} [] []) × (cancelled ≡ cancelled)
Run-terminal_example = Run-terminal {s = cancelled} {t = cancelled} {states = []} refl stop

two_events_taken : session_run negotiating (authenticated ∷ close ∷ []) ≡ ok closed
unfolding session_run session_transition
two_events_taken = refl

rank-session_run_example :
    (rank negotiating + length (authenticated ∷ close ∷ []) ≤ rank closed) × (rank closed ≤ 2)
rank-session_run_example =
    rank-session_run negotiating (authenticated ∷ close ∷ []) closed two_events_taken
