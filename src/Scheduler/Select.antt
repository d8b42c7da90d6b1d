-- ===== src/Scheduler/Select.antt =====
-- internal/scheduler/scorer.go, and selectNode and pickNodeFallback of internal/scheduler/scheduler.go:
-- the choice of a node. Times are nanoseconds, percentages and scores whole numbers.
pub mod Best
pub mod Chosen
mod Tests
use open_fabric.Common.{
  ℕ, zero, ◌+◌, ◌-◌, ◌%◌, Bool, true, false, not, ◌&&◌, ◌||◌, if◌then◌else◌, ltb, leb, Option, none,
  some, List, [], ◌∷◌, ◌++◌, map, String, Dict, lookup, string_eq, ◌==◌,
}
use open_fabric.Common.Int.{ℤ, pos, negsuc, wrap64, ◌-ℤ◌, ltb_ℤ, leb_ℤ}
use open_fabric.Breaker.{allow}
use open_fabric.Breaker.Registry.{BreakerRegistry, breaker_of, on_breaker}
use open_fabric.Scheduler.Classifier.{TaskRequirements}

pub record NodeSnapshot : Type 0 where
  pub node_id : String
  pub free_ram_bytes : ℤ
  pub total_ram_bytes : ℤ
  pub cpu_idle_pct : ℤ
  pub latency_p50_ms : ℤ
  pub latency_p95_ms : ℤ
  pub gpu_vram_free : ℤ
  pub has_gpu : Bool
  pub loaded_models : List String
  pub in_flight_tasks : ℕ
  pub health_score : ℤ
  pub is_on_ethernet : Bool
  pub last_seen_at : ℕ

abbrev pub max_in_flight_per_node : ℕ
max_in_flight_per_node = 8

unfoldable pub is_among : String → List String → Bool
is_among id [] = false
is_among id (a ∷ allowed) = a == id || is_among id allowed

abbrev pub is_allowed : String → List String → Bool
is_allowed id [] = true
is_allowed id (a ∷ allowed) = is_among id (a ∷ allowed)

-- 15 seconds.
unfoldable pub is_eligible : ℕ → NodeSnapshot → TaskRequirements → Bool
is_eligible now node reqs =
    if ltb_ℤ node.free_ram_bytes reqs.min_ram_bytes
    then false
    else if reqs.requires_gpu && not node.has_gpu
    then false
    else if reqs.requires_gpu && ltb_ℤ node.gpu_vram_free reqs.min_ram_bytes
    then false
    else if not (is_allowed node.node_id reqs.allowed_nodes)
    then false
    else if ltb_ℤ (pos 15000000000) (pos now -ℤ pos node.last_seen_at)
    then false
    else not (leb max_in_flight_per_node node.in_flight_tasks)

-- The weighted sum of the five scores, in floating point.
abbrev pub Total : Type 0
Total = NodeSnapshot → TaskRequirements → ℤ

unfoldable pub score : Total → ℕ → NodeSnapshot → TaskRequirements → ℤ
score total now node reqs = if is_eligible now node reqs then total node reqs else negsuc 0

-- The loop of `BestNode`: the best node and its score so far.
unfoldable pub best_from :
    Total → ℕ → TaskRequirements → Option NodeSnapshot → ℤ → List NodeSnapshot → Option NodeSnapshot
best_from total now reqs best best_score [] = best
best_from total now reqs best best_score (n ∷ nodes) =
    elim (ltb_ℤ best_score (score total now n reqs)) [
      | true ↦ best_from total now reqs (some n) (score total now n reqs) nodes
      | false ↦ best_from total now reqs best best_score nodes
    ]

unfoldable pub best_node : Total → ℕ → List NodeSnapshot → TaskRequirements → Option NodeSnapshot
best_node total now nodes reqs = best_from total now reqs none (negsuc 0) nodes

-- What `selectNode` reads of a node of the cluster; no time stands for one that is zero.
pub record ClusterNode : Type 0 where
  pub id : String
  pub online : Bool
  pub ram_total : ℕ
  pub ram_used : ℕ
  pub cpu_percent : ℤ
  pub gpu_available : Bool
  pub vram_free : ℤ
  pub last_seen : Option ℕ

-- What else the scheduler knows: its counts, the outcome recorder's health, and what is injected.
pub record Knowledge : Type 0 where
  pub in_flight : Dict String ℕ
  pub health : String → ℤ
  pub extras : Dict String NodeSnapshot
  pub remote : Option (List NodeSnapshot)
  pub affinity : List String

abbrev pub count_on : Dict String ℕ → String → ℕ
count_on d id = elim (lookup id d) [ none ↦ 0 | some n ↦ n ]

unfoldable pub free_ram : ClusterNode → ℤ
free_ram n = if ltb n.ram_used n.ram_total then wrap64 (pos (n.ram_total - n.ram_used)) else pos 0

unfoldable pub base_snapshot : Knowledge → ℕ → ClusterNode → NodeSnapshot
base_snapshot k now n = record {
  node_id = n.id;
  free_ram_bytes = free_ram n;
  total_ram_bytes = wrap64 (pos n.ram_total);
  cpu_idle_pct = pos 100 -ℤ n.cpu_percent;
  latency_p50_ms = pos 0;
  latency_p95_ms = pos 0;
  gpu_vram_free = n.vram_free;
  has_gpu = n.gpu_available;
  loaded_models = [];
  in_flight_tasks = count_on k.in_flight n.id;
  health_score = k.health n.id;
  is_on_ethernet = false;
  last_seen_at = elim n.last_seen [ none ↦ now | some t ↦ t ];
}

unfoldable pub merge_extra : Option NodeSnapshot → NodeSnapshot → NodeSnapshot
merge_extra none s = s
merge_extra (some x) s = record s {
  latency_p50_ms = x.latency_p50_ms;
  latency_p95_ms = x.latency_p95_ms;
  loaded_models = x.loaded_models;
  is_on_ethernet = x.is_on_ethernet;
}

unfoldable pub snapshot_of : Knowledge → ℕ → ClusterNode → NodeSnapshot
snapshot_of k now n = merge_extra (lookup n.id k.extras) (base_snapshot k now n)

-- `s.breakers.Get(n.ID).Allow()`, which may change the breaker.
abbrev pub breaker_allows : BreakerRegistry → String → ℕ → Bool
breaker_allows r id now = (allow (breaker_of r id) now).1

abbrev pub after_allow : BreakerRegistry → String → ℕ → BreakerRegistry
after_allow r id now = on_breaker r id (λ b. (allow b now).0)

abbrev pub and_candidate :
    NodeSnapshot → List NodeSnapshot × BreakerRegistry → List NodeSnapshot × BreakerRegistry
and_candidate s r = (s ∷ r.0, r.1)

-- The loop over the nodes of the cluster.
unfoldable pub candidates :
    Knowledge → ℕ → BreakerRegistry → List ClusterNode → List NodeSnapshot × BreakerRegistry
candidates k now r [] = ([], r)
candidates k now r (n ∷ nodes) = elim n.online [
  | false ↦ candidates k now r nodes
  | true ↦ elim (breaker_allows r n.id now) [
    | false ↦ candidates k now (after_allow r n.id now) nodes
    | true ↦ and_candidate (snapshot_of k now n) (candidates k now (after_allow r n.id now) nodes)
  ]
]

unfoldable pub fill_remote : Knowledge → NodeSnapshot → NodeSnapshot
fill_remote k s = record s {
  in_flight_tasks = count_on k.in_flight s.node_id;
  health_score =
      if leb_ℤ s.health_score (pos 0) && leb_ℤ (pos 0) s.health_score
      then k.health s.node_id
      else s.health_score;
}

unfoldable pub remote_candidates : Knowledge → List NodeSnapshot
remote_candidates k = elim k.remote [ none ↦ [] | some snaps ↦ map (fill_remote k) snaps ]

-- The first node that is the preferred one and online.
unfoldable pub find_preferred : String → List ClusterNode → Option String
find_preferred preferred [] = none
find_preferred preferred (n ∷ nodes) =
    if n.id == preferred && n.online then some n.id else find_preferred preferred nodes

-- uint64
abbrev pub raw_free : ClusterNode → ℕ
raw_free n = (n.ram_total + 18446744073709551616 - n.ram_used) % 18446744073709551616

unfoldable pub most_free : String → ℕ → List ClusterNode → String
most_free best free [] = best
most_free best free (n ∷ nodes) = elim (n.online && ltb free (raw_free n)) [
  | true ↦ most_free n.id (raw_free n) nodes
  | false ↦ most_free best free nodes
]

abbrev pub or_local : String → String
or_local id = if id == "" then "local" else id

unfoldable pub pick_node_fallback : List ClusterNode → String → String
pick_node_fallback nodes preferred =
    let found = if preferred == "" then none else find_preferred preferred nodes in
    elim found [ some id ↦ id | none ↦ or_local (most_free "" 0 nodes) ]

-- The requirements as the scorer gets them.
unfoldable pub pinned : TaskRequirements → String → List String → TaskRequirements
pinned reqs preferred affinity =
    let pin = if preferred == "" then reqs else record reqs { allowed_nodes = preferred ∷ [] } in
    record pin { preferred_nodes = affinity }

abbrev pub all_candidates : Knowledge → ℕ → BreakerRegistry → List ClusterNode → List NodeSnapshot
all_candidates k now r nodes = (candidates k now r nodes).0 ++ remote_candidates k

unfoldable pub select_node :
    Total
    → Knowledge
    → ℕ
    → BreakerRegistry
    → List ClusterNode
    → TaskRequirements
    → String
    → String × BreakerRegistry
select_node total k now r nodes reqs preferred = (
  (elim (best_node total now (all_candidates k now r nodes) (pinned reqs preferred k.affinity)) [
    | some best ↦ best.node_id
    | none ↦ pick_node_fallback nodes preferred
  ]),
  (candidates k now r nodes).1,
)
