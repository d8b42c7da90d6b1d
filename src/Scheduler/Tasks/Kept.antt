-- ===== src/Scheduler/Tasks/Kept.antt =====
-- The status of a cancelled task over a history, and the goroutines of the task.
use open_fabric.Common.{
  ℕ, zero, suc, ◌≡◌, refl, false, some, List, [], ◌∷◌, map, arith, inl, inr, Option-cases, All,
  All-append, nat_eq,
}
use open_fabric.Admission.{AdmissionController}
use open_fabric.Scheduler.Tasks.Store.{Store, Launch, submit, cancel, shutdown, handle_node_evicted}
use open_fabric.Scheduler.Tasks.Runs.{Phase, Goroutine, System, act}
use open_fabric.Scheduler.Tasks.History.{
  Event, submits, cancels, shuts_down, evicts, advances, nth, set_phase, launched, after_call,
  advance, step, run, new_system,
}
use open_fabric.Scheduler.Tasks.Filed.{IsFiled, step-IsFiled}
use open_fabric.Scheduler.Tasks.Cancelled.{
  IsCancelled, submit-IsCancelled, cancel-IsCancelled, shutdown-IsCancelled, evict-IsCancelled,
  is_validating, act-IsCancelled,
}

-- No goroutine of the task is between the guard of runLocally and the mark as running.
abbrev pub IsQuiet : ℕ → List Goroutine → Type 0
IsQuiet id = All (λ g. g.task ≡ id → is_validating g.phase ≡ false)

launched-IsQuiet : (id : ℕ) (launches : List Launch) → IsQuiet id (map launched launches)
launched-IsQuiet id [] = tt
launched-IsQuiet id (l ∷ launches) = (λ q. refl, launched-IsQuiet id launches)

nth-IsQuiet :
    (id i : ℕ) (gs : List Goroutine) (g : Goroutine)
    → nth i gs ≡ some g
    → IsQuiet id gs
    → g.task ≡ id
    → is_validating g.phase ≡ false
unfolding nth
nth-IsQuiet id i [] g e h q = absurd (ground arith)
nth-IsQuiet id zero (x ∷ gs) g e h q = ground (arith, h.0)
nth-IsQuiet id (suc i) (x ∷ gs) g e h q = nth-IsQuiet id i gs g e h.1 q

set_phase-IsQuiet :
    (id i : ℕ) (p : Phase) (gs : List Goroutine) (g : Goroutine)
    → nth i gs ≡ some g
    → (g.task ≡ id → is_validating p ≡ false)
    → IsQuiet id gs
    → IsQuiet id (set_phase i p gs)
unfolding nth set_phase
set_phase-IsQuiet id i p [] g e k h = tt
set_phase-IsQuiet id zero p (x ∷ gs) g e k h = (λ q. k (ground arith), h.1)
set_phase-IsQuiet id (suc i) p (x ∷ gs) g e k h = (h.0, set_phase-IsQuiet id i p gs g e k h.1)

abbrev IsFrozen : ℕ → System → Type 0
IsFrozen id y = IsFiled y.store × IsCancelled id y.store × IsQuiet id y.runs

call-IsQuiet :
    (id : ℕ) (y : System) (s : Store) (launches : List Launch)
    → IsQuiet id y.runs
    → IsQuiet id (after_call y s launches).runs
call-IsQuiet id y s launches h =
    All-append _ y.runs (map launched launches) h (launched-IsQuiet id launches)

step-IsFrozen : (id : ℕ) (y : System) (e : Event) → IsFrozen id y → IsFrozen id (step y e)
unfolding step advance
step-IsFrozen id y (submits req reqs node now) (f, c, q) = (
  step-IsFiled y (submits req reqs node now) f,
  submit-IsCancelled y.store req reqs node now id f c,
  call-IsQuiet id y (submit y.store req reqs node now).0 (_ ∷ []) q,
)
step-IsFrozen id y (cancels other now) (f, c, q) = (
  step-IsFiled y (cancels other now) f,
  cancel-IsCancelled y.store other now id c,
  call-IsQuiet id y (cancel y.store other now).0 [] q,
)
step-IsFrozen id y (shuts_down now) (f, c, q) = (
  step-IsFiled y (shuts_down now) f,
  shutdown-IsCancelled y.store now id c,
  call-IsQuiet id y (shutdown y.store now) [] q,
)
step-IsFrozen id y (evicts node choose) (f, c, q) = (
  step-IsFiled y (evicts node choose) f,
  evict-IsCancelled node choose y.store id f c,
  call-IsQuiet id y (handle_node_evicted y.store node choose).0 _ q,
)
step-IsFrozen id y (advances i a) (f, c, q) = elim (Option-cases (nth i y.runs)) [
  | inl e ↦ (step-IsFiled y (advances i a) f, rw (e, step, advance) c, rw (e, step, advance) q)
  | inr (g, e) ↦
      let (kept, quiet) = act-IsCancelled y g g.phase a id (nth-IsQuiet id i y.runs g e q) c in
      (
        step-IsFiled y (advances i a) f,
        rw (e, step, advance) kept,
        rw (e, step, advance) (set_phase-IsQuiet id i (act y g g.phase a).phase y.runs g e quiet q),
      )
]

run-IsFrozen : (id : ℕ) (es : List Event) (y : System) → IsFrozen id y → IsFrozen id (run y es)
unfolding run
run-IsFrozen id [] y h = h
run-IsFrozen id (e ∷ es) y h = run-IsFrozen id es (step y e) (step-IsFrozen id y e h)

run-IsFiled : (es : List Event) (y : System) → IsFiled y.store → IsFiled (run y es).store
unfolding run
run-IsFiled [] y h = h
run-IsFiled (e ∷ es) y h = run-IsFiled es (step y e) (step-IsFiled y e h)

-- In every state that a new scheduler can reach, a task that is cancelled while none of its goroutines is between the guard of runLocally and the mark as running stays cancelled, whatever calls, lost nodes and results follow.
pub cancel_lasts :
    (id : ℕ) (a : AdmissionController) (before after : List Event)
    → IsCancelled id (run (new_system a) before).store
    → IsQuiet id (run (new_system a) before).runs
    → IsCancelled id (run (run (new_system a) before) after).store
cancel_lasts id a before after c q =
    let filed = run-IsFiled before (new_system a) (record { distinct = tt; named = tt }) in
    let (f, kept, quiet) = run-IsFrozen id after (run (new_system a) before) (filed, c, q) in kept
