-- ===== src/StateMachine/Runs.antt =====
-- What the transition tables of state_machine.py permit, and what whole runs of an operation or a
-- session look like.
use Prim.Native.String.{String}
use text.Mathlib.TextEquality.{eq_iff}
use esp_iris.Common.{
  ℕ, ◌≡◌, refl, Bool, true, false, not, List, [], ◌∷◌, ◌⊎◌, inl, inr, Option, some, if◌then◌else◌,
  Result, ok, err, arith, length, ◌≤◌, ◌+◌, ◌∙◌, none, bind-ok, or_raise, ◌>>=◌, sym, ap, subst,
}
use esp_iris.StateMachine.{
  StateTransitionError, illegal_transition, OperationState, queued, running, cancelled, interrupted,
  outcome_unknown, succeeded, failed, operation_value, parse_state, find_state,
  active_operation_states, same_state, in_states, operation_transitions, operation_transition,
  transition, terminal_operation_states, SessionState, SessionEvent, session_transition,
  negotiating, ready, closed, close, authenticated,
}

-- An operation that has ended.
abbrev pub is_terminal : OperationState → Bool
is_terminal succeeded = true
is_terminal failed = true
is_terminal cancelled = true
is_terminal interrupted = true
is_terminal outcome_unknown = true
is_terminal _ = false

-- Where an operation that waits in the queue may go: it stays, starts, or ends without a result.
abbrev pub leaves_queue : OperationState → Bool
leaves_queue queued = true
leaves_queue running = true
leaves_queue cancelled = true
leaves_queue interrupted = true
leaves_queue outcome_unknown = true
leaves_queue _ = false

abbrev pub permitted : OperationState → OperationState → Bool
permitted queued t = leaves_queue t
permitted s t = not (is_terminal s)

pub parse_state-value : (s : OperationState) → parse_state (operation_value s) ≡ some s
unfolding parse_state operation_value
parse_state-value queued = refl
parse_state-value _ = refl

permitted-cases :
    (s t : OperationState)
    → transition s t ≡ (if permitted s t then ok t else err illegal_transition)
unfolding transition same_state in_states operation_transitions operation_value
permitted-cases queued queued = refl
permitted-cases queued _ = refl
permitted-cases _ queued = refl
permitted-cases _ _ = refl

-- Between states that are named by their values, a request is granted exactly if it is permitted: an
-- operation in the queue stays there, starts, or ends cancelled, interrupted or unknown; one that
-- has left the queue and not ended may go anywhere; one that has ended goes nowhere.
pub operation_transition_lem :
    (s t : OperationState)
    → operation_transition (operation_value s) (operation_value t)
      ≡ (if permitted s t then ok t else err illegal_transition)
unfolding operation_transition
operation_transition_lem s t = simp (parse_state-value s, parse_state-value t) (permitted-cases s t)

find_state_sound :
    (value : String) (states : List OperationState) (s : OperationState)
    → find_state value states ≡ some s
    → operation_value s ≡ value
unfolding find_state
find_state_sound value [] s h = absurd (cc)
find_state_sound value (t ∷ states) s h =
    ground (arith, eq_iff (operation_value t) value, find_state_sound value states s)

parse_state_sound :
    (value : String) (s : OperationState) → parse_state value ≡ some s → operation_value s ≡ value
parse_state_sound value s h =
    go (find_state value active_operation_states) refl (unfold parse_state in h)
  where
    go :
        (found : Option OperationState)
        → find_state value active_operation_states ≡ found
        → (elim found [ some t ↦ some t | none ↦ find_state value terminal_operation_states ])
          ≡ some s
        → operation_value s ≡ value
    go none e k = find_state_sound value terminal_operation_states s k
    go (some t) e k = find_state_sound value active_operation_states s (e ∙ k)

raised : {E A : Type 0} (o : Option A) (e : E) {a : A} → or_raise o e ≡ ok a → o ≡ some a
raised none e h = absurd (cc)
raised (some b) e h = cc

permitted-ok :
    (s t u : OperationState)
    → (if permitted s t then ok t else err illegal_transition) ≡ ok u
    → (t ≡ u) × (permitted s t ≡ true)
permitted-ok s t u h = ground arith

-- The transition that a granted request stands for.
pub operation_transition_sound :
    (current requested : String) (t : OperationState)
    → operation_transition current requested ≡ ok t
    → (s : OperationState) × (operation_value s ≡ current)
      × (operation_value t ≡ requested)
      × (permitted s t ≡ true)
unfolding operation_transition
operation_transition_sound current requested t h =
    let (s, es, k) = bind-ok _ _ h in
    let (u, eu, m) = bind-ok _ _ k in
    let (same, allowed) = permitted-ok s u t (sym (permitted-cases s u) ∙ m) in
    (
      s,
      parse_state_sound current s (raised _ _ es),
      ap operation_value (sym same) ∙ parse_state_sound requested u (raised _ _ eu),
      subst (λ v. permitted s v ≡ true) same allowed,
    )

-- A run: requests that were granted one after the other.
pub data Run : OperationState → List OperationState → OperationState → Type 0 where
  stop : {s : OperationState} → Run s [] s
  step :
      {s t u : OperationState} {states : List OperationState}
      → operation_transition (operation_value s) (operation_value t) ≡ ok t
      → Run t states u
      → Run s (t ∷ states) u

granted :
    (s t : OperationState)
    → operation_transition (operation_value s) (operation_value t) ≡ ok t
    → permitted s t ≡ true
granted s t h = (permitted-ok s t t (sym (operation_transition_lem s t) ∙ h)).1

-- An operation that has ended stays ended: a run from it is empty.
pub Run-terminal :
    {s t : OperationState} {states : List OperationState}
    → is_terminal s ≡ true
    → Run s states t
    → (states ≡ []) × (t ≡ s)
Run-terminal e stop = (refl, refl)
Run-terminal {s = s} e (step {t = t} h run) = absurd (ended s t e (granted s t h))
  where
    ended : (s t : OperationState) → is_terminal s ≡ true → permitted s t ≡ true → ⊥
    ended queued t e h = cc
    ended _ t e h = cc

abbrev is_result : OperationState → Bool
is_result succeeded = true
is_result failed = true
is_result _ = false

no_result :
    {s t : OperationState} {states : List OperationState}
    → is_terminal s ≡ true
    → is_result s ≡ false
    → Run s states t
    → is_result t ≡ true
    → ⊥
no_result e n run h = absurd (cc (n, h, (Run-terminal e run).1))

Run-result :
    {t : OperationState} {states : List OperationState}
    → Run queued states t
    → is_result t ≡ true
    → in_states running states ≡ true
unfolding in_states same_state operation_value
Run-result stop h = absurd (cc)
Run-result (step {t = running} g run) h = refl
Run-result (step {t = queued} g run) h = Run-result run h
Run-result (step {t = cancelled} g run) h = absurd (no_result refl refl run h)
Run-result (step {t = interrupted} g run) h = absurd (no_result refl refl run h)
Run-result (step {t = outcome_unknown} g run) h = absurd (no_result refl refl run h)
Run-result (step {t = t} g run) h = absurd (cc (granted queued t g))

-- An operation does not succeed or fail out of the queue: a run that leads there has it running.
pub Run-running :
    {t : OperationState} {states : List OperationState}
    → Run queued states t
    → (t ≡ succeeded) ⊎ (t ≡ failed)
    → in_states running states ≡ true
Run-running run (inl e) = Run-result run (ap is_result e)
Run-running run (inr e) = Run-result run (ap is_result e)

pub rank : SessionState → ℕ
rank negotiating = 0
rank ready = 1
rank closed = 2

-- A session that took a number of events in turn.
unfoldable pub session_run :
    SessionState → List SessionEvent → Result StateTransitionError SessionState
unfolding session_transition
session_run s [] = ok s
session_run s (event ∷ events) = session_transition s event >>= λ t. session_run t events

-- Every event moves a session forward on the way from negotiating over ready to closed, so a session
-- takes two events at most, and from a closed one none is taken.
pub rank-session_run :
    (s : SessionState) (events : List SessionEvent) (t : SessionState)
    → session_run s events ≡ ok t
    → (rank s + length events ≤ rank t) × (rank t ≤ 2)
unfolding session_run session_transition rank
rank-session_run s [] t h = ground arith
rank-session_run negotiating (authenticated ∷ events) t h =
    let (a, b) = rank-session_run ready events t h in (omega (arith, a), b)
rank-session_run negotiating (close ∷ events) t h =
    let (a, b) = rank-session_run closed events t h in (omega (arith, a), b)
rank-session_run ready (close ∷ events) t h =
    let (a, b) = rank-session_run closed events t h in (omega (arith, a), b)
rank-session_run ready (authenticated ∷ events) t h = absurd (cc)
rank-session_run closed (event ∷ events) t h = absurd (cc)
