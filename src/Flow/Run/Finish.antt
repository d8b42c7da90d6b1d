-- ===== src/Flow/Run/Finish.antt =====
-- The end of a run whose steps all succeed.
use open_fabric.Common.{
  suc, ◌<◌, ◌≡◌, ◌≢◌, refl, true, false, Option, none, some, List, [], ◌∷◌, All, arith, inl, inr,
  String, string_eq, Option-cases,
}
use mathlib.Core.List.{Memᴰ}
use open_fabric.Flow.Graph.{Step, ids, validate_dependencies}
use open_fabric.Flow.Graph.Sound.{IsSound, rank, validate_dependencies-IsSound}
use open_fabric.Flow.Run.{
  DagState, has_key, may_start, scan, dispatch, coordinate, RunEnd, stalled, Arrival, Event,
  arrives, context_done, receive, loop, first_error, new_dag_state, has_dependencies, with_order,
}
use open_fabric.Flow.Run.Started.{Arrives, new-IsOrderly, receive-IsOrderly}
use open_fabric.Flow.Run.Dispatch.{IsOrderly, scan-ready, coordinate-IsOrderly}
use open_fabric.Flow.Run.Unfinished.{
  below_rank, pigeonhole, All-named, scan-empty, round_end-stalled, All-trivial, All-three,
}

-- Where no step has failed, a round of the coordination of a flow that was accepted never ends in a stall: it ends when all steps have completed, or waits for a step that runs.
pub coordinate_unstalled :
    (steps : List Step) (d : DagState)
    → IsSound steps
    → IsOrderly (λ _. false) steps d
    → d.failed ≡ []
    → (coordinate steps d).end ≢ some stalled
unfolding coordinate
coordinate_unstalled steps d v h f e =
    let (same, _) = scan-ready (λ s. s.id ≡ s.id) d steps h.apart (All-trivial steps) in
    let (running, none_ready, short) =
      round_end-stalled steps d (scan d steps).1 (rw (same, coordinate) at e) in
    let idle = scan-empty d steps h.apart none_ready in
    let facts =
      All-three (λ s. may_start d s ≡ false) (λ s. All (λ x. Memᴰ x (ids steps)) s.depends_on)
        (λ s. All (λ x. rank v.order x < rank v.order s.id) s.depends_on) steps idle v.known
        v.ranked in
    let settled =
      All-named steps (λ id. has_key id d.completed ≡ true)
        (λ id m.
          below_rank steps d v.order (suc (rank v.order id)) facts running f id m (omega arith)) in
    absurd (omega (arith, pigeonhole steps d.completed v.distinct settled))

dispatch-failed : (ready : List Step) (d : DagState) → (dispatch ready d).failed ≡ d.failed
unfolding dispatch
dispatch-failed [] d = refl
dispatch-failed (s ∷ ready) d = dispatch-failed ready (record d { running = s.id ∷ d.running })

coordinate-failed :
    (steps : List Step) (d : DagState)
    → IsOrderly (λ _. false) steps d
    → (coordinate steps d).dag.failed ≡ d.failed
unfolding coordinate
coordinate-failed steps d h =
    let (same, _) = scan-ready (λ s. s.id ≡ s.id) d steps h.apart (All-trivial steps) in
    rw same (dispatch-failed (scan d steps).1 d)

-- Every result is that of a step that succeeded, and the run is not cancelled.
abbrev pub AllSucceed : List Event → Type 0
AllSucceed [] = Unit
AllSucceed (arrives a ∷ events) = (a.error ≡ none) × AllSucceed events
AllSucceed (context_done x ∷ events) = ⊥

received-failed :
    (a : Arrival) (d : DagState) → a.error ≡ none → d.failed ≡ [] → (receive a d).failed ≡ []
unfolding receive
received-failed a d e f = rw (e, receive) f

ended_as :
    (r : RunEnd) (o : Option RunEnd)
    → o ≡ some r
    → ◌≡◌ {A = Option RunEnd} (some r) (some stalled)
    → o ≡ some stalled
ended_as r o e q = ground arith

loop_unstalled :
    (steps : List Step) (d : DagState) (err : Option String) (events : List Event)
    → IsSound steps
    → IsOrderly (λ _. false) steps d
    → d.failed ≡ []
    → Arrives steps d events
    → AllSucceed events
    → (loop steps d err events).end ≢ some stalled
unfolding loop
loop_unstalled steps d err [] v h f k ok = coordinate_unstalled steps d v h f
loop_unstalled steps d err (context_done x ∷ events) v h f k ok = absurd ok
loop_unstalled steps d err (arrives a ∷ events) v h f k ok =
    elim (Option-cases (coordinate steps d).end) [
      | inr (r, e) ↦ λ q.
          coordinate_unstalled steps d v h f
            (ended_as r (coordinate steps d).end e (rw (e, loop) at q))
      | inl e ↦
          rw (e, loop)
            (loop_unstalled steps (receive a (coordinate steps d).dag) (first_error err a.error)
              events v
              (receive-IsOrderly steps a (coordinate steps d).dag k.0
                (coordinate-IsOrderly steps d v.distinct h))
              (received-failed a (coordinate steps d).dag ok.0 (rw (coordinate-failed steps d h) f))
              k.1 ok.1)
    ]

with_order-same : (steps : List Step) → has_dependencies steps ≡ true → with_order steps ≡ steps
unfolding with_order
with_order-same [] h = refl
with_order-same (s ∷ steps) h = rw (h, with_order) refl

-- The run of a flow that was accepted and names dependencies never ends in a stall while all its steps succeed, in whatever order their results arrive.
pub run_unstalled :
    (steps : List Step) (events : List Event)
    → validate_dependencies steps ≡ none
    → has_dependencies steps ≡ true
    → Arrives steps new_dag_state events
    → AllSucceed events
    → (loop (with_order steps) new_dag_state none events).end ≢ some stalled
run_unstalled steps events v named k ok = rw (with_order-same steps named) (
    loop_unstalled steps new_dag_state none events (validate_dependencies-IsSound steps v)
      (new-IsOrderly steps) refl k ok)
