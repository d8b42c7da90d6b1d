-- ===== src/Scheduler/Tasks/History.antt =====
-- internal/scheduler/scheduler.go: the calls and the goroutines of a scheduler, one after another in
-- the order in which they take the locks.
use open_fabric.Common.{ℕ, zero, suc, Option, none, some, List, [], ◌∷◌, ◌++◌, map, String}
use open_fabric.Admission.{AdmissionController}
use open_fabric.Scheduler.Classifier.{TaskRequirements}
use open_fabric.Scheduler.Tasks.Store.{
  Task, SubmitRequest, Store, new_store, Launch, submit, cancel, shutdown, handle_node_evicted,
}
use open_fabric.Scheduler.Tasks.Runs.{Phase, created, Goroutine, System, Answer, Effect, act}

abbrev pub launched : Launch → Goroutine
launched l = record { task = l.task; context = l.context; phase = created }

-- A submission that is accepted, with the node that is chosen; a cancellation; the shutdown; the loss
-- of a node; the next piece of one goroutine.
pub data Event : Type 0 where
  submits : SubmitRequest → TaskRequirements → String → ℕ → Event
  cancels : ℕ → ℕ → Event
  shuts_down : ℕ → Event
  evicts : String → (Task → String) → Event
  advances : ℕ → Answer → Event

unfoldable pub nth : ℕ → List Goroutine → Option Goroutine
nth i [] = none
nth zero (g ∷ gs) = some g
nth (suc i) (g ∷ gs) = nth i gs

unfoldable pub set_phase : ℕ → Phase → List Goroutine → List Goroutine
set_phase i p [] = []
set_phase zero p (g ∷ gs) = record g { phase = p } ∷ gs
set_phase (suc i) p (g ∷ gs) = g ∷ set_phase i p gs

abbrev pub after_call : System → Store → List Launch → System
after_call y s launches = record y { store = s; runs = y.runs ++ map launched launches }

abbrev pub after_act : System → ℕ → Effect → System
after_act y i e = record {
  store = e.store;
  admission = e.admission;
  node_in_flight = e.node_in_flight;
  runs = set_phase i e.phase y.runs;
}

unfoldable pub advance : System → ℕ → Answer → System
advance y i a = elim (nth i y.runs) [ none ↦ y | some g ↦ after_act y i (act y g g.phase a) ]

unfoldable pub step : System → Event → System
step y (submits req reqs node now) =
    after_call y (submit y.store req reqs node now).0 ((submit y.store req reqs node now).1 ∷ [])
step y (cancels id now) = after_call y (cancel y.store id now).0 []
step y (shuts_down now) = after_call y (shutdown y.store now) []
step y (evicts node choose) =
    after_call y (handle_node_evicted y.store node choose).0
      (handle_node_evicted y.store node choose).1
step y (advances i a) = advance y i a

unfoldable pub run : System → List Event → System
run y [] = y
run y (e ∷ es) = run (step y e) es

abbrev pub new_system : AdmissionController → System
new_system a = record { store = new_store; admission = a; node_in_flight = []; runs = [] }
