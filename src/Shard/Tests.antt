-- ===== src/Shard/Tests.antt =====
-- A plan over two nodes, and the planner's theorems at it.
use open_fabric.Common.{◌≡◌, refl, false, List, [], ◌∷◌}
use open_fabric.Common.Int.{pos, ◌≤ℤ◌, wrap64, ◌+ℤ◌, ◌-ℤ◌, ◌*ℤ◌}
use open_fabric.Shard.{
  NodeInfo, ModelInfo, ShardPlan, GoLib, filter_eligible, effective_ram, total_effective,
  plan_shards, kv_cache_ram_at, plan_over, assign_layers, coordinator_ram, ram_per_layer,
}
use open_fabric.Shard.Cover.{Covers, OnFirst, plan_shards-Covers}

-- A sort that keeps the order given, and half of the layers for each share.
abbrev small_lib : GoLib
small_lib = record { sort_slice = λ less ns. ns; share = λ e t layers. pos 2 }

abbrev big_node : NodeInfo
big_node = record {
  id = "a";
  name = "desk";
  free_ram = pos 3000000000;
  total_ram = pos 4000000000;
  has_gpu = false;
  gpu_vram_free = pos 0;
}

abbrev small_node : NodeInfo
small_node = record big_node { id = "b"; name = "lap"; free_ram = pos 2000000000 }

abbrev model : ModelInfo
model = record { name = "m"; total_layers = 4; embed_length = 1; total_ram = pos 3500000000 }

abbrev good_plan : ShardPlan
good_plan = record {
  model = model;
  coordinator = "a";
  shards =
      record {
        node_id = "a";
        node_name = "desk";
        layer_start = 0;
        layer_end = 1;
        assigned_ram = pos 1750000000;
      }
      ∷ record {
        node_id = "b";
        node_name = "lap";
        layer_start = 2;
        layer_end = 3;
        assigned_ram = pos 1750000000;
      }
      ∷ [];
}

plan_shards-Covers_example :
    (first : NodeInfo) × (rest : List NodeInfo) × (filter_eligible small_lib model
        (big_node ∷ small_node ∷ [])
      ≡ first ∷ rest)
    × (good_plan.coordinator ≡ first.id)
    × (model.total_ram ≤ℤ total_effective (effective_ram model first rest))
    × Covers 4 0 good_plan.shards
    × OnFirst good_plan.shards (effective_ram model first rest)
unfolding plan_shards plan_over filter_eligible effective_ram total_effective kv_cache_ram_at
    coordinator_ram ram_per_layer assign_layers wrap64 ◌+ℤ◌ ◌-ℤ◌ ◌*ℤ◌
plan_shards-Covers_example =
    plan_shards-Covers small_lib model (big_node ∷ small_node ∷ []) good_plan refl
