-- ===== src/Flow/Graph/Sound.antt =====
-- The verdict of validateDependencies on a flow.
use open_fabric.Common.{
  ℕ, suc, ◌≤◌, ◌<◌, ◌≡◌, ◌≢◌, refl, subst, none, some, List, [], ◌∷◌, ◌++◌, All, All-map, arith,
  inl, inr, String, Dict, lookup, insert, string_eq, ◌==◌, ltb, Bool-cases, Option-cases, length,
  if◌then◌else◌,
}
use mathlib.Core.List.{Memᴰ}
use mathlib.Core.List.Memᴰ
use open_fabric.Flow.Graph.{
  Step, search_cut, save_path, check_ids, check_dependencies, check_references, ids, dependencies,
  Color, black, Search, done, cycle, cut, dfs, unvisited, search, search_error,
  validate_dependencies,
}
use open_fabric.Flow.Graph.Order.{IsOrder, Marks, each-Extends, dfs-Visits, Search-cases}
use open_fabric.Flow.Graph.Fuel.{search-uncut}
use open_fabric.Flow.Graph.Names.{
  IsDistinct, check_ids-IsDistinct, check_references-known, dependencies-All, All-both,
}

-- The place of a step in an order: 0 if it has none, and more than those that come after it.
abbrev pub rank : List String → String → ℕ
rank [] id = 0
rank (x ∷ order) id =
    if ltb 0 (rank order id) then rank order id else if x == id then suc (length order) else 0

pub record IsSound (steps : List Step) : Type 0 where
  pub named : All (λ s. s.id ≢ "") steps
  pub distinct : IsDistinct steps
  pub known : All (λ s. All (λ d. Memᴰ d (ids steps)) s.depends_on) steps
  pub order : List String
  pub ranked : All (λ s. All (λ d. rank order d < rank order s.id) s.depends_on) steps

rank-le : (order : List String) (id : String) → rank order id ≤ length order
rank-le [] id = omega arith
rank-le (x ∷ order) id = ground (arith, rank-le order id)

rank-pos : (order : List String) (id : String) → Memᴰ id order → 0 < rank order id
rank-pos [] id m = absurd (Memᴰ.not-nil m)
rank-pos (x ∷ order) id (Memᴰ.head e) = ground (arith, string_eq.same_iff x id)
rank-pos (x ∷ order) id (Memᴰ.tail m) = ground (arith, rank-pos order id m)

-- In an order, what a step depends on has a lower rank.
rank-lt :
    (steps : List Step) (order : List String) (id : String)
    → IsOrder steps order
    → 0 < rank order id
    → All (λ d. (0 < rank order d) × (rank order d < rank order id)) (dependencies steps id)
rank-lt steps [] id h p = absurd (omega arith)
rank-lt steps (x ∷ order) id h p = elim (Bool-cases (ltb 0 (rank order id))) [
  | inl e ↦
      All-map (λ d. (0 < rank order d) × (rank order d < rank order id)) _ (dependencies steps id)
        (λ d q. ground (arith, q.0, q.1)) (rank-lt steps order id h.1 (ground arith))
  | inr e ↦ elim (Bool-cases (x == id)) [
    | inl same ↦
        All-map (λ d. Memᴰ d order) _ (dependencies steps id)
          (λ d m. ground (arith, rank-pos order d m, rank-le order d))
          (subst (λ y. All (λ d. Memᴰ d order) (dependencies steps y))
            ((string_eq.same_iff x id).0 same) h.0)
    | inr other ↦ absurd (ground arith)
  ]
]

pub own_dependencies :
    (steps : List Step) → IsDistinct steps → All (λ s. dependencies steps s.id ≡ s.depends_on) steps
unfolding dependencies
own_dependencies [] h = tt
own_dependencies (s ∷ steps) h = (
  ground (arith, string_eq.same_iff s.id s.id),
  All-both (λ t. t.id ≢ s.id) (λ t. dependencies steps t.id ≡ t.depends_on)
      (λ t. dependencies (s ∷ steps) t.id ≡ t.depends_on) steps
      (λ t ne e. ground (arith, string_eq.same_iff s.id t.id)) h.0 (own_dependencies steps h.1),
)

All-ids : (P : String → Type 0) (steps : List Step) → All P (ids steps) → All (λ s. P s.id) steps
unfolding ids
All-ids P [] h = tt
All-ids P (s ∷ steps) h = (h.0, All-ids P steps h.1)

-- What a search without a cycle says of the steps.
search-ranks :
    (steps : List Step) (c : String → Color)
    → IsDistinct steps
    → search steps ≡ done c
    → (order : List String) × All
        (λ s. All (λ d. rank order d < rank order s.id) s.depends_on)
        steps
unfolding search
search-ranks steps c apart e =
    let start : Marks steps unvisited [] = record {
      ordered = tt;
      listed = λ id p. absurd (ground arith);
      marked = λ id m. absurd (Memᴰ.not-nil m);
    } in
    let (x, blacks) =
      each-Extends steps (dfs (suc (length steps)) steps) (dfs-Visits (suc (length steps)) steps)
        (ids steps) unvisited [] c start e in
    let order = x.later ++ [] in
    (
      order,
      All-both (λ s. c s.id ≡ black) (λ s. dependencies steps s.id ≡ s.depends_on)
          (λ s. All (λ d. rank order d < rank order s.id) s.depends_on) steps
          (λ s b own. subst (All (λ d. rank order d < rank order s.id)) own (
            All-map (λ d. (0 < rank order d) × (rank order d < rank order s.id))
              (λ d. rank order d < rank order s.id) (dependencies steps s.id) (λ d q. q.1)
              (rank-lt steps order s.id x.marks.ordered
                (rank-pos order s.id (x.marks.listed s.id b)))))
          (All-ids (λ id. c id ≡ black) steps blacks) (own_dependencies steps apart),
    )

-- Every part of the check has passed.
accepted-parts :
    (steps : List Step)
    → validate_dependencies steps ≡ none
    → (check_ids [] [] steps ≡ none)
      × (check_references (ids steps) steps ≡ none)
      × (search_error (search steps) ≡ none)
unfolding validate_dependencies
accepted-parts steps h = ground arith

-- A flow is accepted only if its steps have different names that are not empty, each depends on steps of the flow, and the steps can be ranked so that each has a higher rank than all that it depends on, which rules out every cycle.
pub validate_dependencies-IsSound :
    (steps : List Step) → validate_dependencies steps ≡ none → IsSound steps
validate_dependencies-IsSound steps h =
    let (unique, references, found) = accepted-parts steps h in
    let (named, apart, _) = check_ids-IsDistinct [] [] steps unique in
    elim (Search-cases (search steps)) [
      | inl (c, e) ↦
          let (order, ranked) = search-ranks steps c apart e in
          record {
            named = named;
            distinct = apart;
            known = check_references-known (ids steps) steps references;
            order = order;
            ranked = ranked;
          }
      | inr (inl (id, e)) ↦ absurd (ground arith)
      | inr (inr e) ↦ absurd (ground arith)
    ]

check_ids_uncut :
    (known : List String) (targets : Dict String String) (steps : List Step)
    → check_ids known targets steps ≢ some search_cut
unfolding check_ids
check_ids_uncut known targets [] h = ground arith
check_ids_uncut known targets (s ∷ steps) h = elim (Option-cases (lookup (save_path s) targets)) [
  | inl e ↦ ground (
    arith,
    check_ids_uncut (s.id ∷ known) targets steps,
    check_ids_uncut (s.id ∷ known) (insert (save_path s) s.id targets) steps,
  )
  | inr (first, e) ↦ ground (arith, check_ids_uncut (s.id ∷ known) targets steps)
]

check_dependencies_uncut :
    (known : List String) (id : String) (deps : List String)
    → check_dependencies known id deps ≢ some search_cut
unfolding check_dependencies
check_dependencies_uncut known id [] h = ground arith
check_dependencies_uncut known id (d ∷ deps) h =
    ground (arith, check_dependencies_uncut known id deps)

check_references_uncut :
    (known : List String) (steps : List Step) → check_references known steps ≢ some search_cut
unfolding check_references
check_references_uncut known [] h = ground arith
check_references_uncut known (s ∷ steps) h =
    elim (Option-cases (check_dependencies known s.id s.depends_on)) [
      | inl e ↦ check_references_uncut known steps (rw (e, check_references) at h)
      | inr (x, e) ↦ ground (arith, check_dependencies_uncut known s.id s.depends_on)
    ]

search_error-uncut : (s : Search) → search_error s ≡ some search_cut → s ≡ cut
search_error-uncut (done c) h = absurd (ground arith)
search_error-uncut (cycle id) h = absurd (ground arith)
search_error-uncut cut h = refl

-- The search for cycles always comes to its end: the fuel, one more than the number of steps, is enough for every flow.
pub validate_dependencies_uncut :
    (steps : List Step) → validate_dependencies steps ≢ some search_cut
unfolding validate_dependencies
validate_dependencies_uncut steps h = elim (Option-cases (check_ids [] [] steps)) [
  | inr (x, e) ↦ ground (arith, check_ids_uncut [] [] steps)
  | inl e ↦ elim (Option-cases (check_references (ids steps) steps)) [
    | inr (x, q) ↦ ground (arith, check_references_uncut (ids steps) steps)
    | inl q ↦
        search-uncut steps
          (dependencies-All (λ d. Memᴰ d (ids steps)) steps
            (check_references-known (ids steps) steps q))
          (search_error-uncut (search steps) (rw (e, q, validate_dependencies) at h))
  ]
]
