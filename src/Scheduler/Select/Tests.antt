-- ===== src/Scheduler/Select/Tests.antt =====
-- Two nodes, one of which reports more memory in use than it has.
use open_fabric.Common.{
  ℕ, ◌≡◌, ◌≢◌, refl, true, false, none, some, List, [], ◌∷◌, All, arith, ◌⊎◌, String, string_eq,
}
use mathlib.Core.List.{Memᴰ}
use open_fabric.Common.Int.{pos, ◌≤ℤ◌}
use open_fabric.Breaker.{default_breaker_config}
use open_fabric.Breaker.Registry.{BreakerRegistry, new_breaker_registry}
use open_fabric.Scheduler.Classifier.{default_requirements}
use open_fabric.Scheduler.Select.{
  NodeSnapshot, Total, ClusterNode, Knowledge, is_eligible, best_node, all_candidates,
  remote_candidates, find_preferred, most_free, pick_node_fallback, pinned, select_node,
}
use open_fabric.Scheduler.Select.Best.{best_node-highest}
use open_fabric.Scheduler.Select.Chosen.{IsOnline, select_node-chosen}

abbrev by_ram : Total
by_ram n q = pos 7

abbrev small : NodeSnapshot
small = record {
  node_id = "a";
  free_ram_bytes = pos 1000000000;
  total_ram_bytes = pos 2000000000;
  cpu_idle_pct = pos 90;
  latency_p50_ms = pos 0;
  latency_p95_ms = pos 0;
  gpu_vram_free = pos 0;
  has_gpu = false;
  loaded_models = [];
  in_flight_tasks = 0;
  health_score = pos 1;
  is_on_ethernet = true;
  last_seen_at = 100;
}

best_node-highest_example :
    ((best_node by_ram 100 (small ∷ []) default_requirements ≡ none)
      × All (λ n. is_eligible 100 n default_requirements ≡ false) (small ∷ []))
    ⊎ ((n : NodeSnapshot) × (best_node by_ram 100 (small ∷ []) default_requirements ≡ some n)
        × Memᴰ n (small ∷ [])
        × (is_eligible 100 n default_requirements ≡ true)
        × All
            (λ m.
              is_eligible 100 m default_requirements ≡ true
              → by_ram m default_requirements ≤ℤ by_ram n default_requirements)
            (small ∷ []))
best_node-highest_example =
    best_node-highest by_ram 100 (small ∷ []) default_requirements (λ n. omega arith)

abbrev node : String → ℕ → ℕ → ClusterNode
node id total used = record {
  id = id;
  online = true;
  ram_total = total;
  ram_used = used;
  cpu_percent = pos 5;
  gpu_available = false;
  vram_free = pos 0;
  last_seen = none;
}

-- The node without free memory has almost 2 ^ 64 bytes of it by the fallback's reckoning.
fallback_wraps : pick_node_fallback (node "a" 1000 200 ∷ node "b" 1000 1001 ∷ []) "" ≡ "b"
unfolding pick_node_fallback find_preferred most_free
fallback_wraps = refl

abbrev nothing_known : Knowledge
nothing_known = record {
  in_flight = [];
  health = λ id. pos 1;
  extras = [];
  remote = none;
  affinity = [];
}

abbrev registry : BreakerRegistry
registry = new_breaker_registry default_breaker_config

abbrev pair : List ClusterNode
pair = node "a" 4000000000 200 ∷ node "b" 1000 1001 ∷ []

abbrev wanted : String
wanted = "a"

select_node-chosen_example :
    let q = pinned default_requirements wanted [] in
    let id = (select_node by_ram nothing_known 100 registry pair default_requirements wanted).0 in
    ((s : NodeSnapshot) × Memᴰ s (all_candidates nothing_known 100 registry pair)
      × (IsOnline pair id ⊎ Memᴰ s (remote_candidates nothing_known))
      × (is_eligible 100 s q ≡ true)
      × (id ≡ s.node_id)
      × (wanted ≢ "" → id ≡ wanted)
      × All
          (λ m. is_eligible 100 m q ≡ true → by_ram m q ≤ℤ by_ram s q)
          (all_candidates nothing_known 100 registry pair))
    ⊎ (All (λ m. is_eligible 100 m q ≡ false) (all_candidates nothing_known 100 registry pair)
        × ((id ≡ "local") ⊎ IsOnline pair id))
select_node-chosen_example =
    select_node-chosen by_ram nothing_known 100 registry pair default_requirements wanted
      (λ n q. omega arith)
