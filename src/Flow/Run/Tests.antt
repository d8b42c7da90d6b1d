-- ===== src/Flow/Run/Tests.antt =====
-- A flow of two steps on a third, its results in two orders, and one whose first step fails.
use open_fabric.Common.{
  false, ◌≡◌, ◌≢◌, refl, true, none, some, List, [], ◌∷◌, String, lookup, insert, string_eq,
}
use open_fabric.Flow.Graph.{
  Step, step_shell, cyclic_dependency, search_cut, check_ids, check_dependencies, check_references,
  is_known, ids, dependencies, writes_file, each, dfs, search, validate_dependencies,
}
use open_fabric.Flow.Graph.Sound.{
  IsSound, validate_dependencies-IsSound, validate_dependencies_uncut,
}
use open_fabric.Flow.Run.{
  StepResult, result_completed, resume, resume_one, new_dag_state, has_dependencies, with_order,
  all_completed, some_failed, scan, dispatch, Event, arrives, remove_id, receive, coordinate, loop,
  stalled, final_status, run_failed,
}
use open_fabric.Flow.Run.Dispatch.{is_started}
use open_fabric.Flow.Run.Started.{loop_starts_in_order}
use open_fabric.Flow.Run.Finish.{run_unstalled}

abbrev step : String → List String → Step
step id deps = record { id = id; kind = step_shell; depends_on = deps; save_to = ""; path = "" }

abbrev fan : List Step
fan = step "a" [] ∷ step "b" ("a" ∷ []) ∷ step "c" ("a" ∷ []) ∷ []

abbrev loop_of_two : List Step
loop_of_two = step "a" ("b" ∷ []) ∷ step "b" ("a" ∷ []) ∷ []

checks :
    (validate_dependencies fan ≡ none)
    × (validate_dependencies loop_of_two ≡ some (cyclic_dependency "a"))
unfolding validate_dependencies check_ids check_references check_dependencies is_known ids
    dependencies writes_file each dfs search
checks = (refl, refl)

validate_dependencies-IsSound_example : IsSound fan
validate_dependencies-IsSound_example = validate_dependencies-IsSound fan checks.0

validate_dependencies_uncut_example : validate_dependencies loop_of_two ≢ some search_cut
validate_dependencies_uncut_example = validate_dependencies_uncut loop_of_two

abbrev back : String → Event
back id = arrives (record { id = id; output = "ok"; error = none })

abbrev results : List Event
results = back "a" ∷ back "c" ∷ back "b" ∷ []

abbrev failing : List Event
failing = arrives (record { id = "a"; output = ""; error = some "exit 1" }) ∷ []

-- The error of the step that failed is lost: the run reports a stall.
failure_reported_as_stall :
    let l = loop (with_order fan) new_dag_state none failing in
    (l.end ≡ some stalled)
    × (l.run_err ≡ some "exit 1")
    × (final_status stalled l.run_err ≡ run_failed "execution stalled")
unfolding with_order has_dependencies loop coordinate scan dispatch receive all_completed
    some_failed is_known remove_id lookup insert final_status
failure_reported_as_stall = (refl, refl, refl)

-- A run that is resumed with the record of its first step.
abbrev records : List StepResult
records = record { id = "a"; status = result_completed; output = "ok"; error = "" } ∷ []

abbrev rest : List Event
rest = back "c" ∷ []

loop_starts_in_order_example :
    let start = resume records new_dag_state in
    let d = (loop (with_order fan) start none rest).dag in
    (is_started start "c" ≡ false
      → is_started d "c" ≡ true
      → all_completed d (dependencies (with_order fan) "c") ≡ true)
    × (is_started start "c" ≡ true → is_known "c" d.running ≡ false)
unfolding with_order has_dependencies loop coordinate scan dispatch receive all_completed
    some_failed is_known remove_id lookup insert resume resume_one
loop_starts_in_order_example =
    loop_starts_in_order records fan rest checks.0 (λ id c. refl) (refl, tt) "c"

run_unstalled_example : (loop (with_order fan) new_dag_state none results).end ≢ some stalled
unfolding has_dependencies loop coordinate scan dispatch receive all_completed some_failed is_known
    remove_id lookup insert
run_unstalled_example =
    run_unstalled fan results checks.0 refl (refl, (refl, (refl, tt))) (refl, (refl, (refl, tt)))
