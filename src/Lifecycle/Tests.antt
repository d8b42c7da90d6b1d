-- ===== src/Lifecycle/Tests.antt =====
-- The lifecycle at a concrete history: two goroutines start and two stop a component.
use open_fabric.Common.{List, [], ◌∷◌, none}
use open_fabric.Lifecycle.{
  new_system, Event, calls_start, calls_shutdown, start_returns, stop_returns, run,
}
use open_fabric.Lifecycle.Once.{IsOrderly, run-new-IsOrderly}

abbrev busy_history : List Event
busy_history =
    calls_start
    ∷ calls_start
    ∷ start_returns none
    ∷ calls_shutdown
    ∷ calls_shutdown
    ∷ stop_returns none
    ∷ []

run-new-IsOrderly_example : IsOrderly (run (new_system "api") busy_history)
run-new-IsOrderly_example = run-new-IsOrderly "api" busy_history
