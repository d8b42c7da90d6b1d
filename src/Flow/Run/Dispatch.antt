-- ===== src/Flow/Run/Dispatch.antt =====
-- What the scan of a round returns and what its dispatch starts.
use open_fabric.Common.{
  ◌≡◌, refl, Bool, true, false, ◌||◌, ◌⊎◌, List, [], ◌∷◌, All, All-map, arith, inl, inr, String,
  string_eq, ◌==◌, Bool-cases,
}
use open_fabric.Flow.Graph.{Step, is_known, dependencies}
use open_fabric.Flow.Graph.Sound.{own_dependencies}
use open_fabric.Flow.Graph.Names.{IsDistinct}
use open_fabric.Flow.Run.{
  DagState, has_key, all_completed, some_failed, may_start, scan, dispatch, coordinate,
}

-- A step that runs, has completed or has failed.
abbrev pub is_started : DagState → String → Bool
is_started d id = has_key id d.completed || has_key id d.failed || is_known id d.running

-- `begun` are the steps that the records of a resumed run name as completed or failed.
pub record IsOrderly (begun : String → Bool) (steps : List Step) (d : DagState) : Type 0 where
  pub dependencies_first :
      (id : String)
      → is_started d id ≡ true
      → (begun id ≡ true) ⊎ (all_completed d (dependencies steps id) ≡ true)
  pub apart : (id : String) → has_key id d.completed ≡ true → has_key id d.failed ≡ false
  pub fresh :
      (id : String)
      → is_known id d.running ≡ true
      → (has_key id d.completed ≡ false) × (has_key id d.failed ≡ false)
  pub kept :
      (id : String) → begun id ≡ true → (has_key id d.completed || has_key id d.failed) ≡ true

-- A completed dependency has not failed.
pub uncascaded :
    (d : DagState) (deps : List String)
    → ((id : String) → has_key id d.completed ≡ true → has_key id d.failed ≡ false)
    → all_completed d deps ≡ true
    → some_failed d deps ≡ false
unfolding all_completed some_failed
uncascaded d [] a h = refl
uncascaded d (dep ∷ deps) a h = ground (arith, a dep, uncascaded d deps a)

-- What the scan returns: the same state, so that the cascade is not taken, and steps that may start.
pub scan-ready :
    (P : Step → Type 0) (d : DagState) (steps : List Step)
    → ((id : String) → has_key id d.completed ≡ true → has_key id d.failed ≡ false)
    → All P steps
    → ((scan d steps).0 ≡ d) × All (λ s. (may_start d s ≡ true) × P s) (scan d steps).1
unfolding scan
scan-ready P d [] a h = (refl, tt)
scan-ready P d (s ∷ steps) a h = elim (Bool-cases (may_start d s)) [
  | inr e ↦ simp (e, scan) (scan-ready P d steps a h.1)
  | inl e ↦
      let f : some_failed d s.depends_on ≡ false = uncascaded d s.depends_on a (ground arith) in
      let (same, all) = scan-ready P d steps a h.1 in simp (e, f, scan) (same, ((refl, h.0), all))
]

pub all_completed-more :
    (d d' : DagState) (deps : List String)
    → ((id : String) → has_key id d.completed ≡ true → has_key id d'.completed ≡ true)
    → all_completed d deps ≡ true
    → all_completed d' deps ≡ true
unfolding all_completed
all_completed-more d d' [] f h = refl
all_completed-more d d' (dep ∷ deps) f h = ground (arith, f dep, all_completed-more d d' deps f)

-- A step that waits, and depends on completed steps only.
record Waits (steps : List Step) (d : DagState) (s : Step) : Type 0 where
  not_completed : has_key s.id d.completed ≡ false
  not_failed : has_key s.id d.failed ≡ false
  satisfied : all_completed d s.depends_on ≡ true
  own : dependencies steps s.id ≡ s.depends_on

may_start-Waits :
    (steps : List Step) (d : DagState) (s : Step)
    → may_start d s ≡ true
    → dependencies steps s.id ≡ s.depends_on
    → Waits steps d s
may_start-Waits steps d s e own = record {
  not_completed = ground arith;
  not_failed = ground arith;
  satisfied = ground arith;
  own = own;
}

pub first-more :
    {B : Type 0} (steps : List Step) (d d' : DagState) (id : String)
    → ((j : String) → has_key j d.completed ≡ true → has_key j d'.completed ≡ true)
    → B ⊎ (all_completed d (dependencies steps id) ≡ true)
    → B ⊎ (all_completed d' (dependencies steps id) ≡ true)
first-more steps d d' id f (inl b) = inl b
first-more steps d d' id f (inr c) = inr (all_completed-more d d' (dependencies steps id) f c)

dispatch_one-IsOrderly :
    {begun : String → Bool} (steps : List Step) (d : DagState) (s : Step)
    → Waits steps d s
    → IsOrderly begun steps d
    → IsOrderly begun steps (record d { running = s.id ∷ d.running })
unfolding is_known
dispatch_one-IsOrderly steps d s w h =
    let d' = record d { running = s.id ∷ d.running } in
    record {
      dependencies_first = λ id st. elim (Bool-cases (s.id == id)) [
        | inl e ↦ inr (
            all_completed-more d d' (dependencies steps id) (λ j k. k)
              (rw (← ((string_eq.same_iff s.id id).0 e), w.own) w.satisfied))
        | inr e ↦ first-more steps d d' id (λ j k. k) (h.dependencies_first id (ground arith))
      ];
      apart = h.apart;
      fresh = λ id k.
          ground (arith, string_eq.same_iff s.id id, h.fresh id, w.not_completed, w.not_failed);
      kept = h.kept;
    }

Waits-dispatched :
    (steps : List Step) (d : DagState) (running : List String) (s : Step)
    → Waits steps d s
    → Waits steps (record d { running = running }) s
Waits-dispatched steps d running s w = record {
  not_completed = w.not_completed;
  not_failed = w.not_failed;
  satisfied =
      all_completed-more d (record d { running = running }) s.depends_on (λ j k. k) w.satisfied;
  own = w.own;
}

dispatch-IsOrderly :
    {begun : String → Bool} (steps ready : List Step) (d : DagState)
    → All (Waits steps d) ready
    → IsOrderly begun steps d
    → IsOrderly begun steps (dispatch ready d)
unfolding dispatch
dispatch-IsOrderly steps [] d k h = h
dispatch-IsOrderly steps (s ∷ ready) d k h =
    dispatch-IsOrderly steps ready (record d { running = s.id ∷ d.running })
      (All-map (Waits steps d) (Waits steps (record d { running = s.id ∷ d.running })) ready
        (Waits-dispatched steps d (s.id ∷ d.running)) k.1)
      (dispatch_one-IsOrderly steps d s k.0 h)

pub coordinate-IsOrderly :
    {begun : String → Bool} (steps : List Step) (d : DagState)
    → IsDistinct steps
    → IsOrderly begun steps d
    → IsOrderly begun steps (coordinate steps d).dag
unfolding coordinate
coordinate-IsOrderly steps d apart h =
    let (same, ready) =
      scan-ready (λ s. dependencies steps s.id ≡ s.depends_on) d steps h.apart
        (own_dependencies steps apart) in
    rw same (
      dispatch-IsOrderly steps (scan d steps).1 d
        (All-map _ (Waits steps d) (scan d steps).1 (λ s q. may_start-Waits steps d s q.0 q.1)
          ready)
        h)
