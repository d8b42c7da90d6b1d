-- ===== src/Scheduler/Tasks/Count.antt =====
-- The admission counter and the goroutines that are counted.
use open_fabric.Common.{
  ℕ, zero, suc, ◌+◌, ◌≤◌, ◌<◌, ◌-◌, ◌^◌, ◌≡◌, refl, some, List, [], ◌∷◌, ◌++◌, map, arith, inl, inr,
  Option-cases, length, length-append,
}
use open_fabric.Common.Int.{pos, wrap64, ◌+ℤ◌, ◌-ℤ◌}
use open_fabric.Admission.{AdmissionController, increment_in_flight, decrement_in_flight}
use open_fabric.Scheduler.Tasks.Store.{Store, Launch, submit, cancel, shutdown, handle_node_evicted}
use open_fabric.Scheduler.Tasks.Runs.{
  Phase, created, starting, validating, leaving, marked, executing, returned, uncounted, ended,
  Goroutine, System, Answer, act, gate, guard_task,
}
use open_fabric.Scheduler.Tasks.History.{
  Event, submits, cancels, shuts_down, evicts, advances, nth, set_phase, advance, step, run,
  launched, new_system, after_call,
}

-- Whether a goroutine in this phase is counted.
abbrev pub is_counted : Phase → ℕ
is_counted created = 0
is_counted (uncounted _) = 0
is_counted ended = 0
is_counted _ = 1

abbrev pub counted : List Goroutine → ℕ
counted [] = 0
counted (g ∷ gs) = is_counted g.phase + counted gs

counted-append :
    (gs : List Goroutine) (launches : List Launch)
    → counted (gs ++ map launched launches) ≡ counted gs
counted-append [] [] = refl
counted-append [] (l ∷ launches) = omega (arith, counted-append [] launches)
counted-append (g ∷ gs) launches = omega (arith, counted-append gs launches)

counted-set_phase :
    (i : ℕ) (p : Phase) (gs : List Goroutine) (g : Goroutine)
    → nth i gs ≡ some g
    → counted (set_phase i p gs) + is_counted g.phase ≡ counted gs + is_counted p
unfolding nth set_phase
counted-set_phase i p [] g h = ground arith
counted-set_phase zero p (x ∷ gs) g h = ground arith
counted-set_phase (suc i) p (x ∷ gs) g h = ground (arith, counted-set_phase i p gs g h)

counted-nth :
    (i : ℕ) (gs : List Goroutine) (g : Goroutine)
    → nth i gs ≡ some g
    → is_counted g.phase ≤ counted gs
unfolding nth
counted-nth i [] g h = ground arith
counted-nth zero (x ∷ gs) g h = ground arith
counted-nth (suc i) (x ∷ gs) g h = omega (arith, counted-nth i gs g h)

-- A goroutine that acts changes the counter as it changes its own count.
act-counts :
    (y : System) (g : Goroutine) (p : Phase) (a : Answer) (n : ℕ)
    → y.admission.in_flight ≡ pos n
    → is_counted p ≤ n
    → n + 1 < 2 ^ 63
    → (act y g p a).admission.in_flight ≡ pos (n + is_counted (act y g p a).phase - is_counted p)
unfolding act increment_in_flight decrement_in_flight wrap64 ◌+ℤ◌ ◌-ℤ◌ gate guard_task
act-counts y g created a n e h small = ground arith
act-counts y g starting a n e h small = ground arith
act-counts y g validating a n e h small = ground arith
act-counts y g leaving a n e h small = ground arith
act-counts y g marked a n e h small = ground arith
act-counts y g executing a n e h small = ground arith
act-counts y g (returned r) a n e h small = ground arith
act-counts y g (uncounted r) a n e h small = ground arith
act-counts y g ended a n e h small = ground arith

counted-le : (gs : List Goroutine) → counted gs ≤ length gs
counted-le [] = omega arith
counted-le (g ∷ gs) = ground (arith, counted-le gs)

length-set_phase : (i : ℕ) (p : Phase) (gs : List Goroutine) → length (set_phase i p gs) ≡ length gs
unfolding set_phase
length-set_phase i p [] = refl
length-set_phase zero p (g ∷ gs) = refl
length-set_phase (suc i) p (g ∷ gs) = omega (arith, length-set_phase i p gs)

abbrev IsCounting : System → Type 0
IsCounting y = y.admission.in_flight ≡ pos (counted y.runs)

advance-IsCounting :
    (y : System) (i : ℕ) (a : Answer)
    → length y.runs + 1 < 2 ^ 63
    → IsCounting y
    → IsCounting (advance y i a)
unfolding advance
advance-IsCounting y i a small h = elim (Option-cases (nth i y.runs)) [
  | inl e ↦ rw (e, advance) h
  | inr (g, e) ↦
      let q = act y g g.phase a in
      let counts =
        act-counts y g g.phase a (counted y.runs) h (counted-nth i y.runs g e)
          (omega (arith, counted-le y.runs)) in
      let moved = counted-set_phase i q.phase y.runs g e in
      let same : counted (set_phase i q.phase y.runs)
          ≡ counted y.runs + is_counted q.phase - is_counted g.phase =
        omega (arith, moved, counted-nth i y.runs g e) in
      rw (e, advance) (rw same counts)
]

length-advance : (y : System) (i : ℕ) (a : Answer) → length (advance y i a).runs ≡ length y.runs
unfolding advance
length-advance y i a = elim (Option-cases (nth i y.runs)) [
  | inl e ↦ rw (e, advance) refl
  | inr (g, e) ↦ rw (e, advance) (length-set_phase i _ y.runs)
]

after_call-IsCounting :
    (y : System) (s : Store) (launches : List Launch)
    → IsCounting y
    → IsCounting (after_call y s launches)
after_call-IsCounting y s launches h = rw (counted-append y.runs launches) h

step-IsCounting :
    (y : System) (e : Event) → length y.runs + 1 < 2 ^ 63 → IsCounting y → IsCounting (step y e)
unfolding step
step-IsCounting y (submits req reqs node now) small h =
    after_call-IsCounting y (submit y.store req reqs node now).0 (_ ∷ []) h
step-IsCounting y (cancels id now) small h = after_call-IsCounting y (cancel y.store id now).0 [] h
step-IsCounting y (shuts_down now) small h = after_call-IsCounting y (shutdown y.store now) [] h
step-IsCounting y (evicts node choose) small h =
    after_call-IsCounting y (handle_node_evicted y.store node choose).0 _ h
step-IsCounting y (advances i a) small h = advance-IsCounting y i a small h

step-grows : (y : System) (e : Event) → length y.runs ≤ length (step y e).runs
unfolding step
step-grows y (submits req reqs node now) =
    omega (arith, length-append y.runs (map launched ((submit y.store req reqs node now).1 ∷ [])))
step-grows y (cancels id now) = omega (arith, length-append y.runs [])
step-grows y (shuts_down now) = omega (arith, length-append y.runs [])
step-grows y (evicts node choose) =
    omega (arith, length-append y.runs (map launched (handle_node_evicted y.store node choose).1))
step-grows y (advances i a) = omega (arith, length-advance y i a)

run-grows : (es : List Event) (y : System) → length y.runs ≤ length (run y es).runs
unfolding run
run-grows [] y = omega arith
run-grows (e ∷ es) y = omega (arith, step-grows y e, run-grows es (step y e))

run-IsCounting :
    (es : List Event) (y : System)
    → length (run y es).runs + 1 < 2 ^ 63
    → IsCounting y
    → IsCounting (run y es)
unfolding run
run-IsCounting [] y small h = h
run-IsCounting (e ∷ es) y small h =
    run-IsCounting es (step y e) small
      (step-IsCounting y e (omega (arith, step-grows y e, run-grows es (step y e))) h)

-- In every history of submissions, cancellations, shutdowns, lost nodes and pieces of goroutines that starts fewer than 2 ^ 63 - 1 goroutines, the admission counter is the number of goroutines that have counted themselves in and not yet out: each of them, however it ends, is counted out exactly once.
pub run-counts :
    (a : AdmissionController) (es : List Event)
    → a.in_flight ≡ pos 0
    → length (run (new_system a) es).runs + 1 < 2 ^ 63
    → (run (new_system a) es).admission.in_flight ≡ pos (counted (run (new_system a) es).runs)
run-counts a es none_yet small = run-IsCounting es (new_system a) small none_yet
