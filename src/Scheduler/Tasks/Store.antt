-- ===== src/Scheduler/Tasks/Store.antt =====
-- internal/scheduler/scheduler.go: the task records and what Submit, Cancel, Shutdown and
-- HandleNodeEvicted do to them while they hold the lock. The node that `selectNode` chooses is an
-- argument, and the number of a task stands for its identifier "task-" and the number.
use open_fabric.Common.{
  ℕ, suc, Bool, true, false, ◌&&◌, if◌then◌else◌, Option, none, some, List, [], ◌∷◌, ◌++◌, String,
  Dict, lookup, insert, delete, nat_eq, string_eq, ◌==◌,
}
use open_fabric.Scheduler.Classifier.{TaskRequirements}

pub data TaskStatus : Type 0 where
  task_pending task_running task_completed task_failed task_cancelled : TaskStatus

-- No time stands for a nil pointer.
pub record Task : Type 0 where
  pub id : ℕ
  pub command : String
  pub env : List String
  pub preferred_node : String
  pub assigned_node : String
  pub status : TaskStatus
  pub output : String
  pub error : String
  pub requirements : TaskRequirements
  pub submitted_at : ℕ
  pub started_at : Option ℕ
  pub finished_at : Option ℕ

pub record SubmitRequest : Type 0 where
  pub command : String
  pub env : List String
  pub preferred_node : String

-- Contexts are numbered in the order of their creation; `cancels` has the context that each cancel
-- function belongs to, and `done` those that are cancelled.
pub record Store : Type 0 where
  pub tasks : Dict ℕ Task
  pub cancels : Dict ℕ ℕ
  pub counter : ℕ
  pub contexts : ℕ
  pub done : List ℕ

abbrev pub new_store : Store
new_store = record { tasks = []; cancels = []; counter = 0; contexts = 0; done = [] }

-- A goroutine of `runLocally` that a call is about to start.
pub record Launch : Type 0 where
  pub task : ℕ
  pub context : ℕ

abbrev pub new_task : ℕ → SubmitRequest → TaskRequirements → String → ℕ → Task
new_task id req reqs node now = record {
  id = id;
  command = req.command;
  env = req.env;
  preferred_node = req.preferred_node;
  assigned_node = node;
  status = task_pending;
  output = "";
  error = "";
  requirements = reqs;
  submitted_at = now;
  started_at = none;
  finished_at = none;
}

-- The critical section of `Submit`, for a task that is accepted.
unfoldable pub submit : Store → SubmitRequest → TaskRequirements → String → ℕ → Store × Launch
submit s req reqs node now = (
  record s {
    tasks = insert (suc s.counter) (new_task (suc s.counter) req reqs node now) s.tasks;
    cancels = insert (suc s.counter) (suc s.contexts) s.cancels;
    counter = suc s.counter;
    contexts = suc s.contexts;
  },
  record { task = suc s.counter; context = suc s.contexts },
)

abbrev pub is_active : TaskStatus → Bool
is_active task_pending = true
is_active task_running = true
is_active _ = false

unfoldable pub get : Store → ℕ → Option Task
get s id = lookup id s.tasks

-- `cancel()` and `delete(s.cancels, id)`, if there is a cancel function.
unfoldable pub cancel_context : ℕ → Store → Store
cancel_context id s = elim (lookup id s.cancels) [
  | none ↦ s
  | some context ↦ record s { cancels = delete id s.cancels; done = context ∷ s.done }
]

pub data CancelError : Type 0 where
  not_found not_running : ℕ → CancelError

abbrev pub cancelled_task : Task → ℕ → Task
cancelled_task t now = record t { status = task_cancelled; finished_at = some now }

unfoldable pub cancel_found : Store → ℕ → ℕ → Task → Store × Option CancelError
cancel_found s id now t =
    if is_active t.status
    then (cancel_context id (record s { tasks = insert id (cancelled_task t now) s.tasks }), none)
    else (s, some (not_running id))

unfoldable pub cancel : Store → ℕ → ℕ → Store × Option CancelError
cancel s id now = elim (lookup id s.tasks) [
  | none ↦ (s, some (not_found id))
  | some t ↦ cancel_found s id now t
]

abbrev pub shut_down : ℕ → Task → Task
shut_down now t =
    if is_active t.status
    then record t { status = task_cancelled; finished_at = some now; error = "agent shutting down" }
    else t

unfoldable pub map_tasks : (Task → Task) → Dict ℕ Task → Dict ℕ Task
map_tasks f [] = []
map_tasks f ((id, t) ∷ tasks) = (id, f t) ∷ map_tasks f tasks

unfoldable pub contexts_of : Dict ℕ ℕ → List ℕ
contexts_of [] = []
contexts_of ((id, context) ∷ cancels) = context ∷ contexts_of cancels

unfoldable pub shutdown : Store → ℕ → Store
shutdown s now = record s {
  tasks = map_tasks (shut_down now) s.tasks;
  cancels = [];
  done = contexts_of s.cancels ++ s.done;
}

-- What `HandleNodeEvicted` does to one task of the evicted node.
unfoldable pub requeue : (Task → String) → Store → Task → Store × Launch
requeue choose s t =
    let c = cancel_context t.id s in
    let reset = record t { status = task_pending; started_at = none; finished_at = none } in
    (
      record c {
        tasks = insert t.id (record reset { assigned_node = choose t }) c.tasks;
        cancels = insert t.id (suc c.contexts) c.cancels;
        contexts = suc c.contexts;
      },
      record { task = t.id; context = suc c.contexts },
    )

abbrev pub is_evicted : String → Task → Bool
is_evicted node t = t.assigned_node == node && is_active t.status

abbrev pub and_launch : Launch → Store × List Launch → Store × List Launch
and_launch launch r = (r.0, launch ∷ r.1)

-- Its loop over the tasks, each of which `range` meets once.
unfoldable pub evict_all : String → (Task → String) → Dict ℕ Task → Store → Store × List Launch
evict_all node choose [] s = (s, [])
evict_all node choose ((id, t) ∷ tasks) s = elim (is_evicted node t) [
  | true ↦ and_launch (requeue choose s t).1 (evict_all node choose tasks (requeue choose s t).0)
  | false ↦ evict_all node choose tasks s
]

unfoldable pub handle_node_evicted : Store → String → (Task → String) → Store × List Launch
handle_node_evicted s node choose = evict_all node choose s.tasks s
