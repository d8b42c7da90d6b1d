-- ===== src/Lifecycle/Once.antt =====
-- Whatever goroutines start and stop a component, in whatever order.
use open_fabric.Common.{◌≡◌, String, none, some, List, [], ◌∷◌, arith}
use open_fabric.Lifecycle.{
  State, new, starting, running, stopping, stopped, error, System, new_system, Event, calls_start,
  calls_shutdown, start_returns, stop_returns, step, run,
}

-- What each state says of the goroutines.
abbrev pub Shape : State → System → Type 0
Shape new y = (y.in_start ≡ 0) × (y.in_stop ≡ 0) × (y.starts ≡ 0) × (y.stops ≡ 0)
Shape starting y = (y.in_start ≡ 1) × (y.in_stop ≡ 0) × (y.starts ≡ 1) × (y.stops ≡ 0)
Shape running y = (y.in_start ≡ 0) × (y.in_stop ≡ 0) × (y.starts ≡ 1) × (y.stops ≡ 0)
Shape stopping y = (y.in_start ≡ 0) × (y.in_stop ≡ 1) × (y.starts ≡ 1) × (y.stops ≡ 1)
Shape stopped y = (y.in_start ≡ 0) × (y.in_stop ≡ 0) × (y.starts ≡ 1) × (y.stops ≡ 1)
Shape error y = (y.in_start ≡ 0) × (y.in_stop ≡ 0) × (y.starts ≡ 1) × (y.stops ≡ 0)

pub record IsOrderly (y : System) : Type 0 where
  pub shape : Shape y.component.state y
  pub never_refused : y.refused ≡ 0

step-IsOrderly : (y : System) (e : Event) → IsOrderly y → IsOrderly (step y e)
unfolding step
step-IsOrderly y calls_start h = ground arith
step-IsOrderly y calls_shutdown h = ground arith
step-IsOrderly y (start_returns none) h = ground arith
step-IsOrderly y (start_returns (some e)) h = ground arith
step-IsOrderly y (stop_returns answer) h = ground arith

run-IsOrderly : (y : System) (es : List Event) → IsOrderly y → IsOrderly (run y es)
unfolding run
run-IsOrderly y [] h = h
run-IsOrderly y (e ∷ es) h = run-IsOrderly (step y e) es (step-IsOrderly y e h)

-- Whatever goroutines call `Start` and `Shutdown`, in whatever order and whatever `onStart` and
-- `onStop` return: each of the two is called at most once, `onStop` only after `onStart` was called and
-- not with a goroutine inside it, the state says where the one goroutine inside stands, and no final
-- transition of `Start` or `Shutdown` is refused.
pub run-new-IsOrderly : (name : String) (es : List Event) → IsOrderly (run (new_system name) es)
unfolding new_system
run-new-IsOrderly name es = run-IsOrderly _ es (ground arith)
