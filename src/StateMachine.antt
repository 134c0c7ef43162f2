-- ===== src/StateMachine.antt =====
-- state_machine.py: the states of an operation and of a session, and their transitions.
pub mod Runs
mod Tests
use Prim.Native.String.{String}
use text.Mathlib.Text.{◌==◌}
use esp_iris.Common.{
  Bool, true, false, not, ◌&&◌, ◌||◌, List, [], ◌∷◌, Option, none, some, if◌then◌else◌, Result, ok,
  err, ◌>>=◌, ◌>>◌, raise_if, or_raise,
}

-- `StateTransitionError`, by what it reports.
pub data StateTransitionError : Type 0 where
  unknown_state illegal_transition : StateTransitionError

pub data OperationState : Type 0 where
  queued running preserving_evidence entering_recovery waiting_recovery : OperationState
  recovery_connected preparing_ota erasing validating_plan transferring : OperationState
  verifying committing waiting_device reconnecting : OperationState
  succeeded failed cancelled interrupted outcome_unknown : OperationState

-- `state.value`
unfoldable pub operation_value : OperationState → String
operation_value queued = "queued"
operation_value running = "running"
operation_value preserving_evidence = "preserving_evidence"
operation_value entering_recovery = "entering_recovery"
operation_value waiting_recovery = "waiting_recovery"
operation_value recovery_connected = "recovery_connected"
operation_value preparing_ota = "preparing_ota"
operation_value erasing = "erasing"
operation_value validating_plan = "validating_plan"
operation_value transferring = "transferring"
operation_value verifying = "verifying"
operation_value committing = "committing"
operation_value waiting_device = "waiting_device"
operation_value reconnecting = "reconnecting"
operation_value succeeded = "succeeded"
operation_value failed = "failed"
operation_value cancelled = "cancelled"
operation_value interrupted = "interrupted"
operation_value outcome_unknown = "outcome_unknown"

abbrev pub terminal_operation_states : List OperationState
terminal_operation_states = succeeded ∷ failed ∷ cancelled ∷ interrupted ∷ outcome_unknown ∷ []

abbrev pub active_operation_states : List OperationState
active_operation_states =
    queued ∷ running ∷ preserving_evidence ∷ entering_recovery ∷ waiting_recovery
    ∷ recovery_connected ∷ preparing_ota ∷ erasing ∷ validating_plan ∷ transferring ∷ verifying
    ∷ committing ∷ waiting_device ∷ reconnecting ∷ []

-- The members of a `StrEnum` are equal if their values are.
unfoldable pub same_state : OperationState → OperationState → Bool
unfolding operation_value
same_state s t = operation_value s == operation_value t

unfoldable pub in_states : OperationState → List OperationState → Bool
unfolding same_state
in_states s [] = false
in_states s (t ∷ states) = same_state s t || in_states s states

-- `_OPERATION_TRANSITIONS[source]`
unfoldable pub operation_transitions : OperationState → List OperationState
operation_transitions queued = running ∷ cancelled ∷ interrupted ∷ outcome_unknown ∷ []
operation_transitions succeeded = []
operation_transitions failed = []
operation_transitions cancelled = []
operation_transitions interrupted = []
operation_transitions outcome_unknown = []
operation_transitions _ =
    queued ∷ running ∷ preserving_evidence ∷ entering_recovery ∷ waiting_recovery
    ∷ recovery_connected ∷ preparing_ota ∷ erasing ∷ validating_plan ∷ transferring ∷ verifying
    ∷ committing ∷ waiting_device ∷ reconnecting ∷ succeeded ∷ failed ∷ cancelled ∷ interrupted
    ∷ outcome_unknown ∷ []

find_state : String → List OperationState → Option OperationState
unfolding operation_value
find_state value [] = none
find_state value (s ∷ states) =
    if operation_value s == value then some s else find_state value states

-- `OperationState(value)`
unfoldable pub parse_state : String → Option OperationState
unfolding find_state
parse_state value = elim (find_state value active_operation_states) [
  | some s ↦ some s
  | none ↦ find_state value terminal_operation_states
]

-- The checks of `operation_transition` behind the parsing of both states.
unfoldable pub transition :
    OperationState → OperationState → Result StateTransitionError OperationState
unfolding same_state in_states operation_transitions
transition source target =
    if same_state source target && not (in_states source terminal_operation_states)
    then ok target
    else (raise_if (not (in_states target (operation_transitions source))) illegal_transition
        >> ok target)

unfoldable pub operation_transition : String → String → Result StateTransitionError OperationState
unfolding parse_state transition
operation_transition current requested = do
  source ← or_raise (parse_state current) unknown_state
  target ← or_raise (parse_state requested) unknown_state
  transition source target

pub data SessionState : Type 0 where
  negotiating ready closed : SessionState

pub data SessionEvent : Type 0 where
  authenticated close : SessionEvent

unfoldable pub session_transition :
    SessionState → SessionEvent → Result StateTransitionError SessionState
session_transition negotiating authenticated = ok ready
session_transition negotiating close = ok closed
session_transition ready close = ok closed
session_transition _ _ = err illegal_transition
