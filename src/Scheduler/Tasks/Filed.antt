-- ===== src/Scheduler/Tasks/Filed.antt =====
-- The numbers of the tasks in the store.
use open_fabric.Common.{
  ℕ, suc, ◌≤◌, ◌≡◌, refl, none, some, [], ◌∷◌, arith, inl, inr, Bool-cases, Option-cases, All,
  All-map, Dict, lookup, insert, nat_eq, IsDistinct, insert-IsDistinct, All-insert, lookup-All,
  String,
}
use open_fabric.Scheduler.Tasks.Store.{
  Task, Store, new_store, Launch, submit, new_task, cancel, cancel_found, cancel_context,
  cancelled_task, shutdown, shut_down, map_tasks, requeue, evict_all, is_evicted, is_active,
  handle_node_evicted, task_pending,
}
use open_fabric.Scheduler.Tasks.Runs.{
  Phase, created, starting, validating, leaving, marked, executing, returned, uncounted, ended,
  Goroutine, System, Answer, act, gate, change, drop_cancel, refused_task, running_task,
  finished_task, failed_task, completed_task, result_task,
}
use open_fabric.Scheduler.Tasks.History.{
  Event, submits, cancels, shuts_down, evicts, advances, nth, advance, step,
}

abbrev pub IsNamed : ℕ → ℕ × Task → Type 0
IsNamed counter e = (e.1.id ≡ e.0) × (e.0 ≤ counter)

pub record IsFiled (s : Store) : Type 0 where
  pub distinct : IsDistinct s.tasks
  pub named : All (IsNamed s.counter) s.tasks

-- A task is put back under its number.
put-IsFiled :
    (s : Store) (id : ℕ) (t : Task)
    → t.id ≡ id
    → id ≤ s.counter
    → IsFiled s
    → IsFiled (record s { tasks = insert id t s.tasks })
put-IsFiled s id t e le h = record {
  distinct = insert-IsDistinct id t s.tasks h.distinct;
  named = All-insert (IsNamed s.counter) id t s.tasks (e, le) h.named;
}

pub IsNamed-found :
    (s : Store) (id : ℕ) (t : Task)
    → IsFiled s
    → lookup id s.tasks ≡ some t
    → IsNamed s.counter (id, t)
IsNamed-found s id t h e = lookup-All (IsNamed s.counter) id t s.tasks e h.named

submit-IsFiled :
    (s : Store) (req : open_fabric.Scheduler.Tasks.Store.SubmitRequest)
    (reqs : open_fabric.Scheduler.Classifier.TaskRequirements) (node : String) (now : ℕ)
    → IsFiled s
    → IsFiled (submit s req reqs node now).0
unfolding submit
submit-IsFiled s req reqs node now h = record {
  distinct = insert-IsDistinct (suc s.counter) _ s.tasks h.distinct;
  named =
      All-insert (IsNamed (suc s.counter)) (suc s.counter)
        (new_task (suc s.counter) req reqs node now) s.tasks (refl, omega arith)
        (All-map (IsNamed s.counter) (IsNamed (suc s.counter)) s.tasks
          (λ e k. (k.0, omega (arith, k.1))) h.named);
}

pub cancel_context-tasks :
    (id : ℕ) (s : Store)
    → ((cancel_context id s).tasks ≡ s.tasks) × ((cancel_context id s).counter ≡ s.counter)
unfolding cancel_context
cancel_context-tasks id s = ground arith

cancel_context-IsFiled : (id : ℕ) (s : Store) → IsFiled s → IsFiled (cancel_context id s)
cancel_context-IsFiled id s h =
    let (tasks, counter) = cancel_context-tasks id s in
    record { distinct = rw tasks h.distinct; named = rw (tasks, counter) h.named }

cancel-IsFiled : (s : Store) (id now : ℕ) → IsFiled s → IsFiled (cancel s id now).0
unfolding cancel cancel_found
cancel-IsFiled s id now h = elim (Option-cases (lookup id s.tasks)) [
  | inl e ↦ rw (e, cancel) h
  | inr (t, e) ↦ elim (Bool-cases (is_active t.status)) [
    | inl a ↦
        rw (e, cancel, a)
          (cancel_context-IsFiled id _ (
            put-IsFiled s id (cancelled_task t now) (IsNamed-found s id t h e).0
              (IsNamed-found s id t h e).1 h))
    | inr a ↦ rw (e, cancel, a) h
  ]
]

pub lookup-map_tasks :
    (f : Task → Task) (id : ℕ) (d : Dict ℕ Task)
    → lookup id (map_tasks f d) ≡ (elim (lookup id d) [ none ↦ none | some t ↦ some (f t) ])
unfolding lookup map_tasks
lookup-map_tasks f id [] = refl
lookup-map_tasks f id ((i, t) ∷ d) = ground (arith, lookup-map_tasks f id d)

map_tasks-IsFiled :
    (f : Task → Task) (counter : ℕ) (d : Dict ℕ Task)
    → ((t : Task) → (f t).id ≡ t.id)
    → IsDistinct d
    → All (IsNamed counter) d
    → IsDistinct (map_tasks f d) × All (IsNamed counter) (map_tasks f d)
unfolding map_tasks
map_tasks-IsFiled f counter [] k h n = (tt, tt)
map_tasks-IsFiled f counter ((i, t) ∷ d) k h n =
    let (h', n') = map_tasks-IsFiled f counter d k h.1 n.1 in
    ((rw (lookup-map_tasks f i d, h.0) refl, h'), ((ground (arith, k t, n.0), n.0.1), n'))

shutdown-IsFiled : (s : Store) (now : ℕ) → IsFiled s → IsFiled (shutdown s now)
unfolding shutdown
shutdown-IsFiled s now h =
    let (d, n) =
      map_tasks-IsFiled (shut_down now) s.counter s.tasks (λ t. ground arith) h.distinct h.named in
    record { distinct = d; named = n }

requeue-IsFiled :
    (choose : Task → String) (s : Store) (t : Task)
    → t.id ≤ s.counter
    → IsFiled s
    → IsFiled (requeue choose s t).0 × ((requeue choose s t).0.counter ≡ s.counter)
unfolding requeue
requeue-IsFiled choose s t le h =
    let c = cancel_context t.id s in
    let (tasks, counter) = cancel_context-tasks t.id s in
    let kept =
      put-IsFiled c t.id
        (record t {
          status = task_pending;
          started_at = none;
          finished_at = none;
          assigned_node = choose t;
        })
        refl (omega (arith, counter)) (cancel_context-IsFiled t.id s h) in
    (record { distinct = kept.distinct; named = kept.named }, counter)

evict_all-IsFiled :
    (node : String) (choose : Task → String) (d : Dict ℕ Task) (s : Store)
    → All (IsNamed s.counter) d
    → IsFiled s
    → IsFiled (evict_all node choose d s).0
unfolding evict_all
evict_all-IsFiled node choose [] s n h = h
evict_all-IsFiled node choose ((i, t) ∷ d) s n h = elim (Bool-cases (is_evicted node t)) [
  | inl e ↦
      let (h', c) = requeue-IsFiled choose s t (omega (arith, n.0)) h in
      rw (e, evict_all) (evict_all-IsFiled node choose d (requeue choose s t).0 (rw c n.1) h')
  | inr e ↦ rw (e, evict_all) (evict_all-IsFiled node choose d s n.1 h)
]

change-IsFiled :
    (id : ℕ) (f : Task → Task) (s : Store)
    → ((t : Task) → (f t).id ≡ t.id)
    → IsFiled s
    → IsFiled (change id f s)
unfolding change
change-IsFiled id f s k h = elim (Option-cases (lookup id s.tasks)) [
  | inl e ↦ rw (e, change) h
  | inr (t, e) ↦
      let (q, le) = IsNamed-found s id t h e in
      rw (e, change) (put-IsFiled s id (f t) (ground (arith, k t)) le h)
]

drop_cancel-IsFiled : (id : ℕ) (s : Store) → IsFiled s → IsFiled (drop_cancel id s)
unfolding drop_cancel
drop_cancel-IsFiled id s h = record { distinct = h.distinct; named = h.named }

pub finished_task-id :
    (now : ℕ) (r : open_fabric.Scheduler.Tasks.Runs.Result) (t : Task)
    → (finished_task now r t).id ≡ t.id
unfolding finished_task result_task failed_task completed_task
finished_task-id now r t = ground arith

act-IsFiled :
    (y : System) (g : Goroutine) (p : Phase) (a : Answer)
    → IsFiled y.store
    → IsFiled (act y g p a).store
unfolding act gate
act-IsFiled y g validating a h = elim (Option-cases a.rejection) [
  | inl e ↦ rw (e, act, gate) (change-IsFiled g.task (running_task a.now) y.store (λ t. refl) h)
  | inr (x, e) ↦
      rw (e, act, gate)
        (drop_cancel-IsFiled g.task _
          (change-IsFiled g.task (refused_task a.now x) y.store (λ t. refl) h))
]
act-IsFiled y g (uncounted r) a h =
    drop_cancel-IsFiled g.task _
      (change-IsFiled g.task (finished_task a.now r) y.store (finished_task-id a.now r) h)
act-IsFiled y g created a h = h
act-IsFiled y g starting a h = h
act-IsFiled y g leaving a h = h
act-IsFiled y g marked a h = h
act-IsFiled y g executing a h = h
act-IsFiled y g (returned r) a h = h
act-IsFiled y g ended a h = h

pub step-IsFiled : (y : System) (e : Event) → IsFiled y.store → IsFiled (step y e).store
unfolding step advance handle_node_evicted
step-IsFiled y (submits req reqs node now) h = submit-IsFiled y.store req reqs node now h
step-IsFiled y (cancels id now) h = cancel-IsFiled y.store id now h
step-IsFiled y (shuts_down now) h = shutdown-IsFiled y.store now h
step-IsFiled y (evicts node choose) h =
    evict_all-IsFiled node choose y.store.tasks y.store h.named h
step-IsFiled y (advances i a) h = elim (Option-cases (nth i y.runs)) [
  | inl e ↦ rw (e, step, advance) h
  | inr (g, e) ↦ rw (e, step, advance) (act-IsFiled y g g.phase a h)
]
