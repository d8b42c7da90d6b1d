-- ===== src/Flow/Run.antt =====
-- internal/flow/engine.go: the coordination of one run in executeRun. The order in which the results of
-- the steps arrive is a list of events.
pub mod Dispatch
pub mod Started
pub mod Unfinished
pub mod Finish
mod Tests
use open_fabric.Common.{
  ℕ, zero, suc, ◌+◌, Bool, true, false, not, ◌&&◌, ◌||◌, if◌then◌else◌, eqb, ltb, Option, none,
  some, List, [], ◌∷◌, ◌++◌, map, String, Dict, lookup, insert, string_eq, ◌==◌, length,
}
use open_fabric.Flow.Graph.{Step, is_known}

pub data ResultStatus : Type 0 where
  result_completed result_failed result_running : ResultStatus

-- A record of a step in the run.
pub record StepResult : Type 0 where
  pub id : String
  pub status : ResultStatus
  pub output : String
  pub error : String

-- `running` has the steps that are dispatched and not back.
pub record DagState : Type 0 where
  pub completed : Dict String String
  pub failed : Dict String String
  pub running : List String

abbrev pub new_dag_state : DagState
new_dag_state = record { completed = []; failed = []; running = [] }

-- A run that is resumed starts from its records.
unfoldable pub resume_one : StepResult → DagState → DagState
resume_one r d = elim r.status [
  | result_completed ↦ record d { completed = insert r.id r.output d.completed }
  | result_failed ↦ record d { failed = insert r.id r.error d.failed }
  | result_running ↦ d
]

unfoldable pub resume : List StepResult → DagState → DagState
resume [] d = d
resume (r ∷ rs) d = resume rs (resume_one r d)

unfoldable pub has_dependencies : List Step → Bool
has_dependencies [] = false
has_dependencies (s ∷ steps) = elim s.depends_on [ [] ↦ has_dependencies steps | d ∷ ds ↦ true ]

unfoldable pub chain : String → List Step → List Step
chain previous [] = []
chain previous (s ∷ steps) = record s { depends_on = previous ∷ [] } ∷ chain s.id steps

-- Without any dependency the steps run one after another.
unfoldable pub with_order : List Step → List Step
with_order [] = []
with_order (s ∷ steps) = if has_dependencies (s ∷ steps) then s ∷ steps else s ∷ chain s.id steps

abbrev pub has_key : String → Dict String String → Bool
has_key id d = elim (lookup id d) [ none ↦ false | some v ↦ true ]

unfoldable pub all_completed : DagState → List String → Bool
all_completed d [] = true
all_completed d (dep ∷ deps) = has_key dep d.completed && all_completed d deps

unfoldable pub some_failed : DagState → List String → Bool
some_failed d [] = false
some_failed d (dep ∷ deps) = has_key dep d.failed || some_failed d deps

-- A step that has not completed, does not run, has not failed, and depends on completed steps only.
abbrev pub may_start : DagState → Step → Bool
may_start d s =
    not (has_key s.id d.completed)
    && not (is_known s.id d.running)
    && not (has_key s.id d.failed)
    && all_completed d s.depends_on

abbrev pub and_ready : Step → DagState × List Step → DagState × List Step
and_ready s r = (r.0, s ∷ r.1)

-- The loop over the steps: those that are ready, and the cascade of failures.
unfoldable pub scan : DagState → List Step → DagState × List Step
scan d [] = (d, [])
scan d (s ∷ steps) = elim (may_start d s) [
  | false ↦ scan d steps
  | true ↦ elim (some_failed d s.depends_on) [
    | true ↦ scan (record d { failed = insert s.id "dependency failed" d.failed }) steps
    | false ↦ and_ready s (scan d steps)
  ]
]

unfoldable pub dispatch : List Step → DagState → DagState
dispatch [] d = d
dispatch (s ∷ steps) d = dispatch steps (record d { running = s.id ∷ d.running })

-- What a step's goroutine sends back.
pub record Arrival : Type 0 where
  pub id : String
  pub output : String
  pub error : Option String

pub data Event : Type 0 where
  arrives : Arrival → Event
  context_done : String → Event

unfoldable pub remove_id : String → List String → List String
remove_id id [] = []
remove_id id (x ∷ xs) = let rest = remove_id id xs in if x == id then rest else x ∷ rest

unfoldable pub receive : Arrival → DagState → DagState
receive a d = elim a.error [
  | some e ↦ record d { running = remove_id a.id d.running; failed = insert a.id e d.failed }
  | none ↦ record d {
    running = remove_id a.id d.running;
    completed = insert a.id a.output d.completed;
  }
]

abbrev pub first_error : Option String → Option String → Option String
first_error (some e) new = some e
first_error none new = new

pub data RunEnd : Type 0 where
  all_done stalled : RunEnd
  cancelled : String → RunEnd

-- One round up to the wait: the state with the ready steps dispatched, or the end of the loop.
pub record Round : Type 0 where
  pub dag : DagState
  pub end : Option RunEnd

abbrev pub accounted : DagState → ℕ
accounted d = length d.completed + length d.failed

abbrev pub round_end : List Step → DagState → List Step → Option RunEnd
round_end steps d ready =
    if not (eqb (length d.running + length ready) 0)
    then none
    else if ltb (accounted d) (length steps)
    then some stalled
    else some all_done

unfoldable pub coordinate : List Step → DagState → Round
coordinate steps d =
    let r = scan d steps in record { dag = dispatch r.1 r.0; end = round_end steps r.0 r.1 }

-- The loop: where it stands when the events are used up, the first error, and its end if it has come.
pub record Loop : Type 0 where
  pub dag : DagState
  pub run_err : Option String
  pub end : Option RunEnd

abbrev pub stop : Round → Option String → RunEnd → Loop
stop r err e = record { dag = r.dag; run_err = err; end = some e }

unfoldable pub loop : List Step → DagState → Option String → List Event → Loop
loop steps d err [] = record {
  dag = (coordinate steps d).dag;
  run_err = err;
  end = (coordinate steps d).end;
}
loop steps d err (arrives a ∷ events) = elim (coordinate steps d).end [
  | some e ↦ stop (coordinate steps d) err e
  | none ↦ loop steps (receive a (coordinate steps d).dag) (first_error err a.error) events
]
loop steps d err (context_done x ∷ events) = elim (coordinate steps d).end [
  | some e ↦ stop (coordinate steps d) err e
  | none ↦ stop (coordinate steps d) (some x) (cancelled x)
]

pub data RunStatus : Type 0 where
  run_completed : RunStatus
  run_failed : String → RunStatus

abbrev pub status_of_error : Option String → RunStatus
status_of_error none = run_completed
status_of_error (some e) = run_failed e

-- From `finalize` on: the stall overwrites an earlier error.
unfoldable pub final_status : RunEnd → Option String → RunStatus
final_status stalled err = run_failed "execution stalled"
final_status all_done err = status_of_error err
final_status (cancelled e) err = run_failed e
