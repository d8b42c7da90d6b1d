-- ===== src/Flow/Run/Started.antt =====
-- The starts of steps over all rounds of a run.
use open_fabric.Common.{
  Bool, ◌≡◌, ◌≢◌, refl, true, false, Option, none, List, [], ◌∷◌, All, arith, inl, inr, String,
  lookup, insert, lookup-insert, string_eq, ◌==◌, if◌then◌else◌, Bool-cases, Option-cases,
}
use open_fabric.Flow.Graph.{Step, is_known, dependencies, validate_dependencies}
use open_fabric.Flow.Graph.Sound.{validate_dependencies-IsSound}
use open_fabric.Flow.Graph.Names.{IsDistinct}
use open_fabric.Flow.Run.{
  StepResult, result_completed, result_failed, result_running, resume, resume_one, has_key,
  DagState, new_dag_state, all_completed, Arrival, Event, arrives, context_done, remove_id, receive,
  coordinate, loop, first_error, chain, with_order, has_dependencies,
}
use open_fabric.Flow.Run.Dispatch.{first-more, is_started, IsOrderly, coordinate-IsOrderly}

is_known-remove :
    (id j : String) (xs : List String)
    → is_known j (remove_id id xs) ≡ (if id == j then false else is_known j xs)
unfolding is_known remove_id
is_known-remove id j [] = ground arith
is_known-remove id j (x ∷ xs) = ground (
  arith,
  is_known-remove id j xs,
  string_eq.same_iff x id,
  string_eq.same_iff id j,
  string_eq.same_iff x j,
)

completes-IsOrderly :
    {begun : String → Bool} (steps : List Step) (id output : String) (d : DagState)
    → is_known id d.running ≡ true
    → IsOrderly begun steps d
    → IsOrderly begun steps
        (record d { running = remove_id id d.running; completed = insert id output d.completed })
completes-IsOrderly steps id output d k h = record {
  dependencies_first = λ j st.
      first-more steps d
        (record d { running = remove_id id d.running; completed = insert id output d.completed }) j
        (λ i c. ground (arith, lookup-insert id i output d.completed))
        (h.dependencies_first j (
          ground (
            arith,
            lookup-insert id j output d.completed,
            is_known-remove id j d.running,
            string_eq.same_iff id j,
          )));
  apart = λ j c. ground (
    arith,
    lookup-insert id j output d.completed,
    h.apart j,
    h.fresh id k,
    string_eq.same_iff id j,
  );
  fresh = λ j r.
      ground
        (arith, lookup-insert id j output d.completed, is_known-remove id j d.running, h.fresh j);
  kept = λ j b. ground (arith, lookup-insert id j output d.completed, h.kept j b);
}

fails-IsOrderly :
    {begun : String → Bool} (steps : List Step) (id x : String) (d : DagState)
    → is_known id d.running ≡ true
    → IsOrderly begun steps d
    → IsOrderly begun steps
        (record d { running = remove_id id d.running; failed = insert id x d.failed })
fails-IsOrderly steps id x d k h = record {
  dependencies_first = λ j st.
      first-more steps d
        (record d { running = remove_id id d.running; failed = insert id x d.failed }) j (λ i c. c)
        (h.dependencies_first j (
          ground (
            arith,
            lookup-insert id j x d.failed,
            is_known-remove id j d.running,
            string_eq.same_iff id j,
          )));
  apart = λ j c.
      ground
        (arith, lookup-insert id j x d.failed, h.apart j, h.fresh id k, string_eq.same_iff id j);
  fresh = λ j r.
      ground (arith, lookup-insert id j x d.failed, is_known-remove id j d.running, h.fresh j);
  kept = λ j b. ground (arith, lookup-insert id j x d.failed, h.kept j b);
}

-- The result of a step that runs.
pub receive-IsOrderly :
    {begun : String → Bool} (steps : List Step) (a : Arrival) (d : DagState)
    → is_known a.id d.running ≡ true
    → IsOrderly begun steps d
    → IsOrderly begun steps (receive a d)
unfolding receive
receive-IsOrderly steps a d k h = elim (Option-cases a.error) [
  | inl e ↦ rw (e, receive) (completes-IsOrderly steps a.id a.output d k h)
  | inr (x, e) ↦ rw (e, receive) (fails-IsOrderly steps a.id x d k h)
]

-- Each result is that of a step that runs when it arrives.
abbrev pub Arrives : List Step → DagState → List Event → Type 0
Arrives steps d [] = Unit
Arrives steps d (context_done x ∷ events) = Unit
Arrives steps d (arrives a ∷ events) =
    (is_known a.id (coordinate steps d).dag.running ≡ true)
    × Arrives steps (receive a (coordinate steps d).dag) events

loop-IsOrderly :
    {begun : String → Bool} (steps : List Step) (d : DagState) (err : Option String)
    (events : List Event)
    → IsDistinct steps
    → Arrives steps d events
    → IsOrderly begun steps d
    → IsOrderly begun steps (loop steps d err events).dag
unfolding loop
loop-IsOrderly steps d err [] apart k h = coordinate-IsOrderly steps d apart h
loop-IsOrderly steps d err (context_done x ∷ events) apart k h =
    elim (Option-cases (coordinate steps d).end) [
      | inl e ↦ rw (e, loop) (coordinate-IsOrderly steps d apart h)
      | inr (r, e) ↦ rw (e, loop) (coordinate-IsOrderly steps d apart h)
    ]
loop-IsOrderly steps d err (arrives a ∷ events) apart k h =
    elim (Option-cases (coordinate steps d).end) [
      | inr (r, e) ↦ rw (e, loop) (coordinate-IsOrderly steps d apart h)
      | inl e ↦
          rw (e, loop)
            (loop-IsOrderly steps (receive a (coordinate steps d).dag) (first_error err a.error)
              events apart k.1
              (receive-IsOrderly steps a (coordinate steps d).dag k.0
                (coordinate-IsOrderly steps d apart h)))
    ]

pub new-IsOrderly : (steps : List Step) → IsOrderly (λ _. false) steps new_dag_state
unfolding lookup is_known
new-IsOrderly steps = record {
  dependencies_first = λ id st. absurd (ground arith);
  apart = λ id c. refl;
  fresh = λ id r. (refl, refl);
  kept = λ id b. absurd (ground (arith, b));
}

chain-apart :
    (x previous : String) (steps : List Step)
    → All (λ t. t.id ≢ x) steps
    → All (λ t. t.id ≢ x) (chain previous steps)
unfolding chain
chain-apart x previous [] h = tt
chain-apart x previous (s ∷ steps) h = (h.0, chain-apart x s.id steps h.1)

chain-IsDistinct :
    (previous : String) (steps : List Step) → IsDistinct steps → IsDistinct (chain previous steps)
unfolding chain
chain-IsDistinct previous [] h = tt
chain-IsDistinct previous (s ∷ steps) h =
    (chain-apart s.id s.id steps h.0, chain-IsDistinct s.id steps h.1)

pub with_order-IsDistinct : (steps : List Step) → IsDistinct steps → IsDistinct (with_order steps)
unfolding with_order
with_order-IsDistinct [] h = tt
with_order-IsDistinct (s ∷ steps) h = elim (Bool-cases (has_dependencies (s ∷ steps))) [
  | inl e ↦ rw (e, with_order) h
  | inr e ↦ rw (e, with_order) (chain-apart s.id s.id steps h.0, chain-IsDistinct s.id steps h.1)
]

resume-running : (records : List StepResult) (d : DagState) → (resume records d).running ≡ d.running
unfolding resume resume_one
resume-running [] d = refl
resume-running (r ∷ records) d =
    elim r.status
      as (λ t.
        (resume records (elim t [
          | result_completed ↦ record d { completed = insert r.id r.output d.completed }
          | result_failed ↦ record d { failed = insert r.id r.error d.failed }
          | result_running ↦ d
        ])).running
        ≡ d.running) [
          | result_completed ↦
              resume-running records (record d { completed = insert r.id r.output d.completed })
          | result_failed ↦
              resume-running records (record d { failed = insert r.id r.error d.failed })
          | result_running ↦ resume-running records d
        ]

resume-IsOrderly :
    (steps : List Step) (d : DagState)
    → d.running ≡ []
    → ((id : String) → has_key id d.completed ≡ true → has_key id d.failed ≡ false)
    → IsOrderly (is_started d) steps d
unfolding is_known
resume-IsOrderly steps d idle apart = record {
  dependencies_first = λ id st. inl st;
  apart = apart;
  fresh = λ id r. absurd (ground (arith, r, idle));
  kept = λ id b. ground (arith, b, idle);
}

-- A run of a flow that was accepted starts from its records, none for a new run, in which no step is both completed and failed; the flow may be another one than that which made the records. Whatever the order in which results arrive from the steps that run, every step that runs, has completed or has failed, and is not completed or failed in the records, depends on completed steps only: on those that the flow names, or on the step before it where the flow names none at all. No step that is completed or failed in the records runs again.
pub loop_starts_in_order :
    (records : List StepResult) (steps : List Step) (events : List Event)
    → let start = resume records new_dag_state in
      validate_dependencies steps ≡ none
      → ((id : String) → has_key id start.completed ≡ true → has_key id start.failed ≡ false)
      → Arrives (with_order steps) start events
      → let d = (loop (with_order steps) start none events).dag in
        (id : String)
        → (is_started start id ≡ false
            → is_started d id ≡ true
            → all_completed d (dependencies (with_order steps) id) ≡ true)
          × (is_started start id ≡ true → is_known id d.running ≡ false)
loop_starts_in_order records steps events v apart k id =
    let start = resume records new_dag_state in
    let o =
      loop-IsOrderly (with_order steps) start none events
        (with_order-IsDistinct steps (validate_dependencies-IsSound steps v).distinct) k
        (resume-IsOrderly (with_order steps) start (resume-running records new_dag_state) apart) in
    (
      λ unrecorded st. ground (arith, o.dependencies_first id st, unrecorded),
      λ recorded. ground (arith, o.fresh id, o.kept id recorded),
    )
