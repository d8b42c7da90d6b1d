-- ===== src/Scheduler/Tasks/Cancelled.antt =====
-- The status of a cancelled task under every call and every piece of runLocally.
use open_fabric.Common.{
  ℕ, suc, ◌≡◌, ◌≢◌, refl, Bool, true, false, none, some, [], ◌∷◌, arith, inl, inr, Bool-cases,
  Option-cases, All, All-map, Dict, lookup, insert, nat_eq, found_unique, lookup-insert, eqb,
  String,
}
use open_fabric.Scheduler.Tasks.Store.{
  TaskStatus, task_cancelled, Task, Store, new_store, Launch, submit, new_task, cancel,
  cancel_found, cancel_context, cancelled_task, shutdown, shut_down, map_tasks, requeue, evict_all,
  is_evicted, is_active, handle_node_evicted, task_pending,
}
use open_fabric.Scheduler.Tasks.Runs.{
  Phase, created, starting, validating, leaving, marked, executing, returned, uncounted, ended,
  Goroutine, System, Answer, act, gate, guard_task, change, drop_cancel, refused_task, running_task,
  finished_task, status_of, is_cancelled,
}
use open_fabric.Scheduler.Tasks.Filed.{
  IsNamed, IsFiled, IsNamed-found, cancel_context-tasks, lookup-map_tasks,
}

abbrev pub IsCancelled : ℕ → Store → Type 0
IsCancelled id s = (t : Task) × (lookup id s.tasks ≡ some t) × (t.status ≡ task_cancelled)

pub submit-IsCancelled :
    (s : Store) (req : open_fabric.Scheduler.Tasks.Store.SubmitRequest)
    (reqs : open_fabric.Scheduler.Classifier.TaskRequirements) (node : String) (now id : ℕ)
    → IsFiled s
    → IsCancelled id s
    → IsCancelled id (submit s req reqs node now).0
unfolding submit
submit-IsCancelled s req reqs node now id h (t, e, c) = (
  t,
  ground (
    arith,
    lookup-insert (suc s.counter) id (new_task (suc s.counter) req reqs node now) s.tasks,
    IsNamed-found s id t h e,
  ),
  c,
)

pub cancel-IsCancelled :
    (s : Store) (other now id : ℕ) → IsCancelled id s → IsCancelled id (cancel s other now).0
unfolding cancel cancel_found
cancel-IsCancelled s other now id (t, e, c) = elim (Option-cases (lookup other s.tasks)) [
  | inl n ↦ (t, rw (n, cancel) e, c)
  | inr (u, n) ↦ elim (Bool-cases (is_active u.status)) [
    | inl a ↦ (
      t,
      rw
          (
            n,
            cancel,
            a,
            (cancel_context-tasks other
                (record s { tasks = insert other (cancelled_task u now) s.tasks })).0,
          )
          (ground (arith, lookup-insert other id (cancelled_task u now) s.tasks)),
      c,
    )
    | inr a ↦ (t, rw (n, cancel, a) e, c)
  ]
]

pub shutdown-IsCancelled :
    (s : Store) (now id : ℕ) → IsCancelled id s → IsCancelled id (shutdown s now)
unfolding shutdown
shutdown-IsCancelled s now id (t, e, c) =
    (t, ground (arith, lookup-map_tasks (shut_down now) id s.tasks), c)

requeue-IsCancelled :
    (choose : Task → String) (s : Store) (t : Task) (id : ℕ)
    → t.id ≢ id
    → IsCancelled id s
    → IsCancelled id (requeue choose s t).0
unfolding requeue
requeue-IsCancelled choose s t id ne (u, e, c) =
    let (tasks, counter) = cancel_context-tasks t.id s in
    (
      u,
      ground (
        arith,
        lookup-insert t.id id
            (record t {
              status = task_pending;
              started_at = none;
              finished_at = none;
              assigned_node = choose t;
            })
            (cancel_context t.id s).tasks,
      ),
      c,
    )

evict_all-IsCancelled :
    (node : String) (choose : Task → String) (d : Dict ℕ Task) (s : Store) (id counter : ℕ)
    → All (IsNamed counter) d
    → All (λ e. e.0 ≡ id → e.1.status ≡ task_cancelled) d
    → IsCancelled id s
    → IsCancelled id (evict_all node choose d s).0
unfolding evict_all
evict_all-IsCancelled node choose [] s id counter n k h = h
evict_all-IsCancelled node choose ((i, t) ∷ d) s id counter n k h =
    elim (Bool-cases (is_evicted node t)) [
      | inl e ↦
          rw (e, evict_all)
            (evict_all-IsCancelled node choose d (requeue choose s t).0 id counter n.1 k.1
              (requeue-IsCancelled choose s t id (λ q. ground (arith, n.0, k.0)) h))
      | inr e ↦ rw (e, evict_all) (evict_all-IsCancelled node choose d s id counter n.1 k.1 h)
    ]

pub evict-IsCancelled :
    (node : String) (choose : Task → String) (s : Store) (id : ℕ)
    → IsFiled s
    → IsCancelled id s
    → IsCancelled id (handle_node_evicted s node choose).0
unfolding handle_node_evicted
evict-IsCancelled node choose s id h (t, e, c) =
    let only = found_unique id t s.tasks h.distinct e in
    evict_all-IsCancelled node choose s.tasks s id s.counter h.named
      (All-map (λ x. x.0 ≡ id → x.1 ≡ t) (λ x. x.0 ≡ id → x.1.status ≡ task_cancelled) s.tasks
        (λ x f p. rw (f p) c) only)
      (t, e, c)

change-IsCancelled :
    (j id : ℕ) (f : Task → Task) (s : Store)
    → (j ≡ id → (t : Task) → t.status ≡ task_cancelled → (f t).status ≡ task_cancelled)
    → IsCancelled id s
    → IsCancelled id (change j f s)
unfolding change
change-IsCancelled j id f s k (t, e, c) = elim (Option-cases (lookup j s.tasks)) [
  | inl n ↦ (t, rw (n, change) e, c)
  | inr (u, n) ↦ elim (Bool-cases (eqb j id)) [
    | inl q ↦ (
      f t,
      rw (n, change) (ground (arith, lookup-insert j id (f u) s.tasks)),
      k (ground arith) t c,
    )
    | inr q ↦ (t, rw (n, change) (ground (arith, lookup-insert j id (f u) s.tasks)), c)
  ]
]

finished_task-cancelled :
    (now : ℕ) (r : open_fabric.Scheduler.Tasks.Runs.Result) (t : Task)
    → t.status ≡ task_cancelled
    → (finished_task now r t).status ≡ task_cancelled
unfolding finished_task is_cancelled
finished_task-cancelled now r t e = ground arith

abbrev pub is_validating : Phase → Bool
is_validating validating = true
is_validating _ = false

drop_cancel-IsCancelled :
    (j id : ℕ) (s : Store) → IsCancelled id s → IsCancelled id (drop_cancel j s)
unfolding drop_cancel
drop_cancel-IsCancelled j id s h = h

pub act-IsCancelled :
    (y : System) (g : Goroutine) (p : Phase) (a : Answer) (id : ℕ)
    → (g.task ≡ id → is_validating p ≡ false)
    → IsCancelled id y.store
    → IsCancelled id (act y g p a).store × (g.task ≡ id → is_validating (act y g p a).phase ≡ false)
unfolding act gate guard_task
act-IsCancelled y g validating a id k h = elim (Option-cases a.rejection) [
  | inl e ↦ (
    rw (e, act, gate)
        (change-IsCancelled g.task id (running_task a.now) y.store (λ q. absurd (ground arith)) h),
    λ q. absurd (ground arith),
  )
  | inr (x, e) ↦ (
    rw (e, act, gate)
        (drop_cancel-IsCancelled g.task id (change g.task (refused_task a.now x) y.store) (
          change-IsCancelled g.task id (refused_task a.now x) y.store (λ q. absurd (ground arith))
            h)),
    λ q. absurd (ground arith),
  )
]
act-IsCancelled y g (uncounted r) a id k h = (
  drop_cancel-IsCancelled g.task id (change g.task (finished_task a.now r) y.store) (
      change-IsCancelled g.task id (finished_task a.now r) y.store
        (λ q. finished_task-cancelled a.now r) h),
  λ q. refl,
)
act-IsCancelled y g created a id k h = (h, λ q. refl)
act-IsCancelled y g starting a id k h = (h, λ q. ground arith)
act-IsCancelled y g leaving a id k h = (h, λ q. refl)
act-IsCancelled y g marked a id k h = (h, λ q. refl)
act-IsCancelled y g executing a id k h = (h, λ q. refl)
act-IsCancelled y g (returned r) a id k h = (h, λ q. refl)
act-IsCancelled y g ended a id k h = (h, λ q. refl)
