-- ===== src/Scheduler/Tasks/Tests.antt =====
-- One task: cancelled before its guard, after it, and moved from a node that is lost.
use open_fabric.Common.{
  ◌≡◌, refl, false, none, some, List, [], ◌∷◌, ◌++◌, lookup, insert, delete, nat_eq, arith,
}
use open_fabric.Common.Int.{pos, wrap64, ◌+ℤ◌, ◌-ℤ◌}
use open_fabric.Admission.{AdmissionController, increment_in_flight, decrement_in_flight}
use open_fabric.Scheduler.Classifier.{default_requirements}
use open_fabric.Scheduler.Tasks.Store.{
  TaskStatus, task_completed, SubmitRequest, submit, cancel, cancel_found, cancel_context, requeue,
  evict_all, handle_node_evicted,
}
use open_fabric.Scheduler.Tasks.Runs.{
  executing, ended, Answer, act, gate, guard_task, change, drop_cancel, finished_task, result_task,
  completed_task, failed_task, is_cancelled, status_of, count_in, count_out,
}
use open_fabric.Scheduler.Tasks.History.{
  Event, submits, cancels, evicts, advances, nth, set_phase, advance, step, run, new_system,
}
use open_fabric.Scheduler.Tasks.Count.{counted, run-counts}
use open_fabric.Scheduler.Tasks.Kept.{cancel_lasts}
use open_fabric.Scheduler.Tasks.Cancelled.{IsCancelled}

abbrev idle : AdmissionController
idle = record {
  cfg = record { max_queue_depth = 10; max_in_flight_total = 4; exceeds = λ n limit. false };
  in_flight = pos 0;
  queued = pos 0;
}

abbrev request : SubmitRequest
request = record { command = "date"; env = []; preferred_node = "" }

abbrev succeeds : Answer
succeeds = record { rejection = none; result = record { output = "noon"; error = none }; now = 9 }

abbrev fails : Answer
fails = record { rejection = none; result = record { output = ""; error = some "lost" }; now = 9 }

-- Counted in, and past the guard.
abbrev guarded : List Event
guarded =
    submits request default_requirements "n1" 1 ∷ advances 0 succeeds ∷ advances 0 succeeds ∷ []

-- From the gate to the end.
abbrev to_the_end : List Event
to_the_end =
    advances 0 succeeds
    ∷ advances 0 succeeds
    ∷ advances 0 succeeds
    ∷ advances 0 succeeds
    ∷ advances 0 succeeds
    ∷ []

-- A cancellation between the guard and the mark is undone: the task runs and is completed.
cancel_undone :
    status_of (run (new_system idle) (guarded ++ cancels 1 5 ∷ to_the_end)).store 1
    ≡ some task_completed
unfolding run step advance submit cancel cancel_found cancel_context act gate guard_task change
    drop_cancel finished_task result_task completed_task failed_task is_cancelled count_in count_out
    nth set_phase lookup insert delete increment_in_flight decrement_in_flight wrap64 ◌+ℤ◌ ◌-ℤ◌
cancel_undone = refl

abbrev elsewhere : Event
elsewhere = evicts "n1" (λ t. "n2")

-- The task runs on n1, which is lost; it runs on n2 too when the run on n1 fails: it counts as failed
-- while it runs, and nothing can cancel it any more.
abbrev moved : List Event
moved =
    guarded
    ++ advances 0 succeeds
      ∷ advances 0 succeeds
      ∷ elsewhere
      ∷ advances 1 succeeds
      ∷ advances 1 succeeds
      ∷ advances 1 succeeds
      ∷ advances 1 succeeds
      ∷ advances 0 fails
      ∷ advances 0 fails
      ∷ advances 0 fails
      ∷ []

moved_twice :
    let y = run (new_system idle) moved in
    (y.runs
      ≡ record { task = 1; context = 1; phase = ended }
        ∷ record { task = 1; context = 2; phase = executing }
        ∷ [])
    × (status_of y.store 1 ≡ some TaskStatus.task_failed)
    × (y.store.cancels ≡ [])
unfolding run step advance submit cancel cancel_found cancel_context requeue evict_all
    handle_node_evicted act gate guard_task change drop_cancel finished_task result_task
    completed_task failed_task is_cancelled count_in count_out nth set_phase lookup insert delete
    increment_in_flight decrement_in_flight wrap64 ◌+ℤ◌ ◌-ℤ◌
moved_twice = (refl, refl, refl)

run-counts_example :
    (run (new_system idle) guarded).admission.in_flight
    ≡ pos (counted (run (new_system idle) guarded).runs)
unfolding run step advance submit act guard_task nth set_phase lookup insert
run-counts_example = run-counts idle guarded refl (omega arith)

-- Cancelled before the guard.
abbrev early : List Event
early = submits request default_requirements "n1" 1 ∷ advances 0 succeeds ∷ cancels 1 5 ∷ []

cancel_lasts_example : IsCancelled 1 (run (run (new_system idle) early) to_the_end).store
unfolding run step advance submit cancel cancel_found cancel_context act guard_task nth set_phase
    lookup insert delete
cancel_lasts_example = cancel_lasts 1 idle early to_the_end (_, refl, refl) ((λ q. refl), tt)
