-- ===== src/Scheduler/Tasks/Runs.antt =====
-- internal/scheduler/scheduler.go: the goroutines of runLocally, cut where they leave a lock, and the
-- history of all that happens. What the sandbox's gate says and what the worker or the remote node
-- returns are answers.
use open_fabric.Common.{
  ℕ, suc, ◌-◌, ltb, Bool, true, false, if◌then◌else◌, Option, none, some, List, String, Dict,
  lookup, insert, delete, nat_eq, string_eq,
}
use open_fabric.Admission.{AdmissionController, increment_in_flight, decrement_in_flight}
use open_fabric.Scheduler.Tasks.Store.{
  TaskStatus, task_running, task_completed, task_failed, task_cancelled, Task, Store,
}

-- The output, and the error if there is one.
pub record Result : Type 0 where
  pub output : String
  pub error : Option String

-- Where a goroutine is: started but not counted yet; before the guard; before the gate; about to count
-- itself out and end; marked as running; in the worker; back; counted out; at its end.
pub data Phase : Type 0 where
  created starting validating leaving marked executing ended : Phase
  returned uncounted : Result → Phase

pub record Goroutine : Type 0 where
  pub task : ℕ
  pub context : ℕ
  pub phase : Phase

pub record System : Type 0 where
  pub store : Store
  pub admission : AdmissionController
  pub node_in_flight : Dict String ℕ
  pub runs : List Goroutine

-- The answer of the gate, that of the worker, and the time.
pub record Answer : Type 0 where
  pub rejection : Option String
  pub result : Result
  pub now : ℕ

-- What a goroutine does next: it goes to a phase, and the store, the counter of the admission
-- controller and the counts of the nodes change.
pub record Effect : Type 0 where
  pub store : Store
  pub admission : AdmissionController
  pub node_in_flight : Dict String ℕ
  pub phase : Phase

abbrev pub status_of : Store → ℕ → Option TaskStatus
status_of s id = elim (lookup id s.tasks) [ none ↦ none | some t ↦ some t.status ]

unfoldable pub guard_task : Option TaskStatus → Phase
guard_task (some task_cancelled) = leaving
guard_task _ = validating

-- The task is changed in place.
unfoldable pub change : ℕ → (Task → Task) → Store → Store
change id f s = elim (lookup id s.tasks) [
  | none ↦ s
  | some t ↦ record s { tasks = insert id (f t) s.tasks }
]

unfoldable pub drop_cancel : ℕ → Store → Store
drop_cancel id s = record s { cancels = delete id s.cancels }

abbrev pub refused_task : ℕ → String → Task → Task
refused_task now e t = record t { finished_at = some now; status = task_failed; error = e }

abbrev pub running_task : ℕ → Task → Task
running_task now t = record t { status = task_running; started_at = some now }

-- The outcome of a run, unless the task was cancelled.
unfoldable pub failed_task : ℕ → String → String → Task → Task
failed_task now output e t = record t {
  finished_at = some now;
  output = output;
  status = task_failed;
  error = e;
}

unfoldable pub completed_task : ℕ → String → Task → Task
completed_task now output t = record t {
  finished_at = some now;
  output = output;
  status = task_completed;
}

unfoldable pub result_task : ℕ → Result → Task → Task
result_task now r t = elim r.error [
  | some e ↦ failed_task now r.output e t
  | none ↦ completed_task now r.output t
]

unfoldable pub is_cancelled : TaskStatus → Bool
is_cancelled task_cancelled = true
is_cancelled _ = false

unfoldable pub finished_task : ℕ → Result → Task → Task
finished_task now r t = if is_cancelled t.status then t else result_task now r t

abbrev pub node_of : Store → ℕ → String
node_of s id = elim (lookup id s.tasks) [ none ↦ "" | some t ↦ t.assigned_node ]

abbrev pub count_of : String → Dict String ℕ → ℕ
count_of node d = elim (lookup node d) [ none ↦ 0 | some n ↦ n ]

unfoldable pub count_in : String → Dict String ℕ → Dict String ℕ
count_in node d = insert node (suc (count_of node d)) d

unfoldable pub count_out : String → Dict String ℕ → Dict String ℕ
count_out node d = if ltb 0 (count_of node d) then insert node (count_of node d - 1) d else d

-- After the gate.
unfoldable pub gate : System → Goroutine → Answer → Effect
gate y g a = elim a.rejection [
  | some e ↦ record {
    store = drop_cancel g.task (change g.task (refused_task a.now e) y.store);
    admission = y.admission;
    node_in_flight = y.node_in_flight;
    phase = leaving;
  }
  | none ↦ record {
    store = change g.task (running_task a.now) y.store;
    admission = y.admission;
    node_in_flight = y.node_in_flight;
    phase = marked;
  }
]

-- The next piece of `runLocally`, or of the call that starts it.
unfoldable pub act : System → Goroutine → Phase → Answer → Effect
act y g created a = record {
  store = y.store;
  admission = increment_in_flight y.admission;
  node_in_flight = y.node_in_flight;
  phase = starting;
}
act y g starting a = record {
  store = y.store;
  admission = y.admission;
  node_in_flight = y.node_in_flight;
  phase = guard_task (status_of y.store g.task);
}
act y g leaving a = record {
  store = y.store;
  admission = decrement_in_flight y.admission;
  node_in_flight = y.node_in_flight;
  phase = ended;
}
act y g validating a = gate y g a
act y g marked a = record {
  store = y.store;
  admission = y.admission;
  node_in_flight = count_in (node_of y.store g.task) y.node_in_flight;
  phase = executing;
}
act y g executing a = record {
  store = y.store;
  admission = y.admission;
  node_in_flight = count_out (node_of y.store g.task) y.node_in_flight;
  phase = returned a.result;
}
act y g (returned r) a = record {
  store = y.store;
  admission = decrement_in_flight y.admission;
  node_in_flight = y.node_in_flight;
  phase = uncounted r;
}
act y g (uncounted r) a = record {
  store = drop_cancel g.task (change g.task (finished_task a.now r) y.store);
  admission = y.admission;
  node_in_flight = y.node_in_flight;
  phase = ended;
}
act y g ended a = record {
  store = y.store;
  admission = y.admission;
  node_in_flight = y.node_in_flight;
  phase = ended;
}
