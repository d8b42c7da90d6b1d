-- ===== src/Lifecycle.antt =====
-- internal/reliability/lifecycle: the states of a component, and `Start` and `Shutdown` as the steps
-- between which other goroutines run.
pub mod Once
mod Tests
use open_fabric.Common.{
  ℕ, zero, suc, String, Bool, true, false, ◌||◌, if◌then◌else◌, Option, none, some, List, [], ◌∷◌,
}

pub data State : Type 0 where
  new starting running stopping stopped error : State

-- Go's `==` on the numbers that the states are.
abbrev pub same_state : State → State → Bool
same_state new new = true
same_state starting starting = true
same_state running running = true
same_state stopping stopping = true
same_state stopped stopped = true
same_state error error = true
same_state _ _ = false

-- `validTransitions`.
abbrev pub valid_transitions : State → List State
valid_transitions new = starting ∷ []
valid_transitions starting = running ∷ error ∷ []
valid_transitions running = stopping ∷ error ∷ []
valid_transitions stopping = stopped ∷ error ∷ []
valid_transitions stopped = []
valid_transitions error = []

abbrev pub any_state : State → List State → Bool
any_state s [] = false
any_state s (t ∷ ts) = same_state t s || any_state s ts

-- The error is its text.
pub record Component : Type 0 where
  pub name : String
  pub state : State
  pub err : Option String

unfoldable pub new_component : String → Component
new_component name = record { name = name; state = new; err = none }

-- `transition`: the answer is whether the transition was legal.
unfoldable pub transition : Component → State → Component × Bool
transition c next =
    if any_state next (valid_transitions c.state)
    then (record c { state = next }, true)
    else (c, false)

-- `transitionError`.
unfoldable pub transition_error : Component → String → Component
transition_error c e = record c { state = error; err = some e }

-- `IsRunning`.
unfoldable pub is_running : Component → Bool
is_running c = same_state c.state running

-- A component and the goroutines that use it: those inside `onStart` and `onStop`, how often each was
-- called, and how many final transitions of `Start` and `Shutdown` were refused.
pub record System : Type 0 where
  pub component : Component
  pub in_start : ℕ
  pub in_stop : ℕ
  pub starts : ℕ
  pub stops : ℕ
  pub refused : ℕ

unfoldable pub new_system : String → System
unfolding new_component
new_system name = record {
  component = new_component name;
  in_start = 0;
  in_stop = 0;
  starts = 0;
  stops = 0;
  refused = 0;
}

-- What a goroutine does between two others: it enters `Start` or `Shutdown`, or comes back from
-- `onStart` or `onStop`, with its error.
pub data Event : Type 0 where
  calls_start calls_shutdown : Event
  start_returns stop_returns : Option String → Event

final : System → Component × Bool → System
final y (c, true) = record y { component = c }
final y (c, false) = record y { component = c; refused = suc y.refused }

start_called : System → Component × Bool → System
start_called y (c, true) = record y {
  component = c;
  in_start = suc y.in_start;
  starts = suc y.starts;
}
start_called y (c, false) = y

stop_called : System → Component × Bool → System
stop_called y (c, true) = record y { component = c; in_stop = suc y.in_stop; stops = suc y.stops }
stop_called y (c, false) = y

start_returned : System → ℕ → Option String → System
unfolding final transition transition_error
start_returned y zero answer = y
start_returned y (suc n) none = final (record y { in_start = n }) (transition y.component running)
start_returned y (suc n) (some e) = record y {
  in_start = n;
  component = transition_error y.component e;
}

stop_returned : System → ℕ → System
unfolding final transition
stop_returned y zero = y
stop_returned y (suc n) = final (record y { in_stop = n }) (transition y.component stopped)

-- `Start` and `Shutdown`, cut where they call `onStart` and `onStop`.
unfoldable pub step : System → Event → System
unfolding start_called stop_called start_returned stop_returned transition
step y calls_start = start_called y (transition y.component starting)
step y calls_shutdown = stop_called y (transition y.component stopping)
step y (start_returns answer) = start_returned y y.in_start answer
step y (stop_returns answer) = stop_returned y y.in_stop

unfoldable pub run : System → List Event → System
run y [] = y
run y (e ∷ es) = run (step y e) es
