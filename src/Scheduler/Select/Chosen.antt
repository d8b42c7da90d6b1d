-- ===== src/Scheduler/Select/Chosen.antt =====
-- Where selectNode and its fallback send a task.
use open_fabric.Common.{
  ℕ, ◌≡◌, ◌≢◌, refl, true, false, none, some, List, [], ◌∷◌, ◌++◌, All, All-map, arith, inl, inr,
  Bool-cases, Option-cases, ◌⊎◌, String, string_eq, ◌==◌, ltb, ◌&&◌, if◌then◌else◌,
}
use mathlib.Core.List.{Memᴰ}
use open_fabric.Common.Int.{pos, ◌≤ℤ◌}
use open_fabric.Breaker.Registry.{BreakerRegistry}
use open_fabric.Scheduler.Classifier.{TaskRequirements}
use open_fabric.Scheduler.Select.{
  NodeSnapshot, Total, ClusterNode, Knowledge, is_eligible, is_among, snapshot_of, base_snapshot,
  merge_extra, breaker_allows, after_allow, candidates, all_candidates, remote_candidates,
  find_preferred, most_free, raw_free, or_local, pick_node_fallback, pinned, select_node,
}
use open_fabric.Scheduler.Select.Best.{best_node-highest}

-- A node of the cluster that is online.
abbrev pub IsOnline : List ClusterNode → String → Type 0
IsOnline nodes id = (n : ClusterNode) × Memᴰ n nodes × (n.online ≡ true) × (id ≡ n.id)

IsOnline-tail :
    (n : ClusterNode) (nodes : List ClusterNode) (id : String)
    → IsOnline nodes id
    → IsOnline (n ∷ nodes) id
IsOnline-tail n nodes id (m, member, on, e) = (m, Memᴰ.tail member, on, e)

find_preferred-IsOnline :
    (preferred : String) (nodes : List ClusterNode) (id : String)
    → find_preferred preferred nodes ≡ some id
    → IsOnline nodes id × (id ≡ preferred)
unfolding find_preferred
find_preferred-IsOnline preferred [] id h = absurd (ground arith)
find_preferred-IsOnline preferred (n ∷ nodes) id h =
    elim (Bool-cases (n.id == preferred && n.online)) [
      | inl e ↦ (
        (n, Memᴰ.head refl, ground arith, ground arith),
        ground (arith, string_eq.same_iff n.id preferred),
      )
      | inr e ↦
          let (on, same) = find_preferred-IsOnline preferred nodes id (ground arith) in
          (IsOnline-tail n nodes id on, same)
    ]

most_free-IsOnline :
    (best : String) (free : ℕ) (nodes : List ClusterNode)
    → (most_free best free nodes ≡ best) ⊎ IsOnline nodes (most_free best free nodes)
unfolding most_free
most_free-IsOnline best free [] = inl refl
most_free-IsOnline best free (n ∷ nodes) = elim (Bool-cases (n.online && ltb free (raw_free n))) [
  | inl e ↦
      rw (e, most_free)
        (elim (most_free-IsOnline n.id (raw_free n) nodes) [
          | inl same ↦ inr (n, Memᴰ.head refl, ground arith, same)
          | inr on ↦ inr (IsOnline-tail n nodes _ on)
        ])
  | inr e ↦
      rw (e, most_free)
        (elim (most_free-IsOnline best free nodes) [
          | inl same ↦ inl same
          | inr on ↦ inr (IsOnline-tail n nodes _ on)
        ])
]

or_local-cases : (id : String) → (or_local id ≡ "local") ⊎ (or_local id ≡ id)
or_local-cases id = ground arith

-- The fallback names this machine, or a node of the cluster that is online.
pick_node_fallback-cases :
    (nodes : List ClusterNode) (preferred : String)
    → (pick_node_fallback nodes preferred ≡ "local")
      ⊎ IsOnline nodes (pick_node_fallback nodes preferred)
unfolding pick_node_fallback
pick_node_fallback-cases nodes preferred =
    elim (Option-cases (if preferred == "" then none else find_preferred preferred nodes)) [
      | inr (id, e) ↦
          rw (e, pick_node_fallback)
            (inr (find_preferred-IsOnline preferred nodes id (ground arith)).0)
      | inl e ↦
          rw (e, pick_node_fallback)
            (elim (most_free-IsOnline "" 0 nodes) [
              | inl empty ↦ inl (rw empty refl)
              | inr on ↦ elim (or_local-cases (most_free "" 0 nodes)) [
                | inl local ↦ inl local
                | inr same ↦ inr (rw same on)
              ]
            ])
    ]

snapshot_of-id : (k : Knowledge) (now : ℕ) (n : ClusterNode) → (snapshot_of k now n).node_id ≡ n.id
unfolding snapshot_of base_snapshot merge_extra
snapshot_of-id k now n = ground arith

-- A node that its breaker admits when selectNode asks it.
candidates-IsOnline :
    (k : Knowledge) (now : ℕ) (r : BreakerRegistry) (nodes : List ClusterNode)
    → All (λ s. IsOnline nodes s.node_id) (candidates k now r nodes).0
unfolding candidates
candidates-IsOnline k now r [] = tt
candidates-IsOnline k now r (n ∷ nodes) = elim (Bool-cases n.online) [
  | inr off ↦
      simp (off, candidates)
        (All-map _ _ _ (λ s. IsOnline-tail n nodes s.node_id) (candidates-IsOnline k now r nodes))
  | inl on ↦ elim (Bool-cases (breaker_allows r n.id now)) [
    | inr refused ↦
        simp (on, refused, candidates)
          (All-map _ _ _ (λ s. IsOnline-tail n nodes s.node_id)
            (candidates-IsOnline k now (after_allow r n.id now) nodes))
    | inl allows ↦
        simp (on, allows, candidates)
          (
            (n, Memᴰ.head refl, on, snapshot_of-id k now n),
            All-map _ _ _ (λ s. IsOnline-tail n nodes s.node_id)
                (candidates-IsOnline k now (after_allow r n.id now) nodes),
          )
  ]
]

pinned-id :
    (now : ℕ) (s : NodeSnapshot) (reqs : TaskRequirements) (preferred : String)
    (affinity : List String)
    → preferred ≢ ""
    → is_eligible now s (pinned reqs preferred affinity) ≡ true
    → s.node_id ≡ preferred
unfolding is_eligible pinned is_among
pinned-id now s reqs preferred affinity ne e =
    ground (arith, string_eq.same_iff preferred s.node_id, string_eq.same_iff preferred "")

-- A candidate comes from the cluster or from the lenders.
split_mem :
    (p : String → Type 0) (s : NodeSnapshot) (xs ys : List NodeSnapshot)
    → All (λ x. p x.node_id) xs
    → Memᴰ s (xs ++ ys)
    → p s.node_id ⊎ Memᴰ s ys
split_mem p s [] ys h m = inr m
split_mem p s (x ∷ xs) ys h (Memᴰ.head e) = inl (rw e h.0)
split_mem p s (x ∷ xs) ys h (Memᴰ.tail m) = split_mem p s xs ys h.1 m

-- If the weighted sums are not negative, selectNode returns the name of an eligible candidate, a node of the cluster that is online or a remote node, whose weighted sum no other eligible candidate exceeds, and which is the preferred node if there is one; and when no candidate is eligible it returns local or the name of a node of the cluster that is online.
pub select_node-chosen :
    (total : Total) (k : Knowledge) (now : ℕ) (r : BreakerRegistry) (nodes : List ClusterNode)
    (reqs : TaskRequirements) (preferred : String)
    → ((n : NodeSnapshot) (q : TaskRequirements) → pos 0 ≤ℤ total n q)
    → let q = pinned reqs preferred k.affinity in
      let id = (select_node total k now r nodes reqs preferred).0 in
      ((s : NodeSnapshot) × Memᴰ s (all_candidates k now r nodes)
        × (IsOnline nodes id ⊎ Memᴰ s (remote_candidates k))
        × (is_eligible now s q ≡ true)
        × (id ≡ s.node_id)
        × (preferred ≢ "" → id ≡ preferred)
        × All
            (λ m. is_eligible now m q ≡ true → total m q ≤ℤ total s q)
            (all_candidates k now r nodes))
      ⊎ (All (λ m. is_eligible now m q ≡ false) (all_candidates k now r nodes)
          × ((id ≡ "local") ⊎ IsOnline nodes id))
unfolding select_node
select_node-chosen total k now r nodes reqs preferred h =
    let q = pinned reqs preferred k.affinity in
    elim (best_node-highest total now (all_candidates k now r nodes) q (λ n. h n q)) [
      | inl (e, barred) ↦
          inr (barred, rw (e, select_node) (pick_node_fallback-cases nodes preferred))
      | inr (s, e, member, fits, top) ↦ inl (
        s,
        member,
        rw (e, select_node)
            (split_mem (IsOnline nodes) s _ _ (candidates-IsOnline k now r nodes) member),
        fits,
        rw (e, select_node) refl,
        (λ ne. rw (e, select_node) (pinned-id now s reqs preferred k.affinity ne fits)),
        top,
      )
    ]
