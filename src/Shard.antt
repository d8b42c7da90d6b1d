-- ===== src/Shard.antt =====
-- internal/llm/shard.go: the static plan that lays the layers of a model over nodes, and the test of
-- whether to distribute. Byte counts are int64; Go's `sort.Slice` is an argument, and so is the
-- floating-point share of the layers that a node's memory is worth.
pub mod Cover
pub mod Distribute
mod Tests
use open_fabric.Common.{
  ℕ, zero, suc, ◌+◌, ◌-◌, ◌/◌, String, Bool, true, false, ◌&&◌, ◌||◌, not, ltb, leb, if◌then◌else◌,
  Option, none, some, List, [], ◌∷◌, Dict,
}
use open_fabric.Common.Int.{
  trunc_div, ℤ, pos, negsuc, ◌+ℤ◌, ◌-ℤ◌, ◌*ℤ◌, wrap64, ltb_ℤ, leb_ℤ, pos_part,
}

pub record NodeInfo : Type 0 where
  pub id : String
  pub name : String
  pub free_ram : ℤ
  pub total_ram : ℤ
  pub has_gpu : Bool
  pub gpu_vram_free : ℤ

-- The fields of `ModelInfo` that the planner reads; a count of layers below 1 is 0.
pub record ModelInfo : Type 0 where
  pub name : String
  pub total_layers : ℕ
  pub embed_length : ℕ
  pub total_ram : ℤ

-- `LayerEnd` is inclusive.
pub record Shard : Type 0 where
  pub node_id : String
  pub node_name : String
  pub layer_start : ℕ
  pub layer_end : ℕ
  pub assigned_ram : ℤ

pub record ShardPlan : Type 0 where
  pub model : ModelInfo
  pub coordinator : String
  pub shards : List Shard

abbrev pub default_context_len : ℕ
default_context_len = 2048

abbrev pub reserved_system_ram : ℕ
reserved_system_ram = 1073741824

-- `KVCacheRAMAt`.
unfoldable pub kv_cache_ram_at : ModelInfo → ℕ → ℤ
kv_cache_ram_at m seq_len =
    if leb m.total_layers 0 || leb m.embed_length 0
    then pos 0
    else wrap64 (
        wrap64 (wrap64 (wrap64 (pos 2 *ℤ pos m.total_layers) *ℤ pos m.embed_length) *ℤ pos seq_len)
        *ℤ pos 2)

-- `model.TotalRAM / int64(model.TotalLayers)`
unfoldable pub ram_per_layer : ModelInfo → ℤ
unfolding trunc_div
ram_per_layer m = trunc_div m.total_ram m.total_layers

-- What the planner takes of Go: the sort, and `int(float64(e) / float64(t) * float64(layers))`.
pub record GoLib : Type 0 where
  pub sort_slice : (NodeInfo → NodeInfo → Bool) → List NodeInfo → List NodeInfo
  pub share : ℤ → ℤ → ℕ → ℤ

-- The comparison of `filterEligible`.
abbrev pub goes_first : NodeInfo → NodeInfo → Bool
goes_first a b =
    if (a.has_gpu && not b.has_gpu) || (b.has_gpu && not a.has_gpu)
    then a.has_gpu
    else ltb_ℤ b.free_ram a.free_ram

with_layer_ram : ℤ → List NodeInfo → List NodeInfo
with_layer_ram per_layer [] = []
with_layer_ram per_layer (n ∷ ns) =
    let rest = with_layer_ram per_layer ns in if leb_ℤ per_layer n.free_ram then n ∷ rest else rest

-- `filterEligible`.
unfoldable pub filter_eligible : GoLib → ModelInfo → List NodeInfo → List NodeInfo
unfolding with_layer_ram
filter_eligible go m nodes = go.sort_slice goes_first (with_layer_ram (ram_per_layer m) nodes)

-- How many layers a node is to hold; `last` says that no node follows.
pub layers_for : GoLib → ModelInfo → ℤ → ℤ → Bool → ℕ → ℕ
layers_for go m effective total true cursor = m.total_layers - cursor
layers_for go m effective total false cursor =
    let n = go.share effective total m.total_layers in if ltb_ℤ n (pos 1) then 1 else pos_part n

pub is_last : List (NodeInfo × ℤ) → Bool
is_last [] = true
is_last (_ ∷ _) = false

pub shard_for : ModelInfo → NodeInfo → ℕ → ℕ → Shard
shard_for m n cursor layers = record {
  node_id = n.id;
  node_name = n.name;
  layer_start = cursor;
  layer_end =
      if leb m.total_layers (cursor + layers - 1) then m.total_layers - 1 else cursor + layers - 1;
  assigned_ram = wrap64 (pos layers *ℤ ram_per_layer m);
}

-- The end of the loop's body: the shard is appended, and the last layer ends the loop.
pub attach : ModelInfo → Shard → List Shard → List Shard
attach m s later = if leb m.total_layers (suc s.layer_end) then s ∷ [] else s ∷ later

-- The loop of `assignLayers` over the nodes with their effective memory, from a layer on.
pub assign_from : GoLib → ModelInfo → ℤ → ℕ → List (NodeInfo × ℤ) → List Shard
assign_from go m total cursor [] = []
assign_from go m total cursor ((n, effective) ∷ rest) =
    let s = shard_for m n cursor (layers_for go m effective total (is_last rest) cursor) in
    attach m s (assign_from go m total (suc s.layer_end) rest)

-- `assignLayers`.
unfoldable pub assign_layers : GoLib → ModelInfo → List (NodeInfo × ℤ) → ℤ → List Shard
unfolding assign_from attach shard_for layers_for is_last
assign_layers go m nodes total = assign_from go m total 0 nodes

pub others : List NodeInfo → List (NodeInfo × ℤ)
others [] = []
others (n ∷ ns) = (n, n.free_ram) ∷ others ns

-- The memory of a node that coordinates, after its cache and the system's share.
unfoldable pub coordinator_ram : ModelInfo → NodeInfo → ℤ
coordinator_ram m n =
    let eff =
      wrap64
        (wrap64 (n.free_ram -ℤ kv_cache_ram_at m default_context_len) -ℤ pos reserved_system_ram) in
    if ltb_ℤ eff (pos 0) then pos 0 else eff

unfoldable pub effective_ram : ModelInfo → NodeInfo → List NodeInfo → List (NodeInfo × ℤ)
unfolding others
effective_ram m first rest = (first, coordinator_ram m first) ∷ others rest

add_ram : ℤ → List (NodeInfo × ℤ) → ℤ
add_ram total [] = total
add_ram total ((_, e) ∷ es) = add_ram (wrap64 (total +ℤ e)) es

unfoldable pub total_effective : List (NodeInfo × ℤ) → ℤ
unfolding add_ram
total_effective nodes = add_ram (pos 0) nodes

pub data PlanError : Type 0 where
  model_incomplete : PlanError
  no_node_fits insufficient_ram : ℤ → PlanError

pub data Planned : Type 0 where
  planned : ShardPlan → Planned
  refused : PlanError → Planned

unfoldable pub plan_over : GoLib → ModelInfo → List NodeInfo → Planned
plan_over go m [] = refused (no_node_fits (ram_per_layer m))
plan_over go m (first ∷ rest) =
    let nodes = effective_ram m first rest in
    let total = total_effective nodes in
    if ltb_ℤ total m.total_ram
    then refused (insufficient_ram (wrap64 (m.total_ram -ℤ total)))
    else planned
        (record { model = m; coordinator = first.id; shards = assign_layers go m nodes total })

-- `PlanShards`, with the answer of `PlanShardsDynamic`: `none` is its error.
unfoldable pub plan_shards : GoLib → ModelInfo → List NodeInfo → Option ShardPlan → Planned
plan_shards go m nodes dynamic =
    if leb m.total_layers 0 || leb_ℤ m.total_ram (pos 0)
    then refused model_incomplete
    else elim dynamic [
      | some plan ↦ planned plan
      | none ↦ plan_over go m (filter_eligible go m nodes)
    ]

pub fits_gpu : ModelInfo → List NodeInfo → Bool
fits_gpu m [] = false
fits_gpu m (n ∷ ns) = (n.has_gpu && leb_ℤ m.total_ram n.gpu_vram_free) || fits_gpu m ns

pub fits_cpu : ModelInfo → List NodeInfo → Bool
fits_cpu m [] = false
fits_cpu m (n ∷ ns) = leb_ℤ m.total_ram n.free_ram || fits_cpu m ns

pub too_slow : Dict String ℕ → Bool
too_slow [] = false
too_slow ((_, p50) ∷ ps) = ltb 5000000 p50 || too_slow ps

-- `ShouldDistributeInference`, with the median latency of each link in nanoseconds.
unfoldable pub should_distribute_inference : ModelInfo → List NodeInfo → Dict String ℕ → Bool
unfolding fits_gpu fits_cpu too_slow others
should_distribute_inference m nodes quality =
    if fits_gpu m nodes
    then false
    else if fits_cpu m nodes
    then false
    else if ltb_ℤ (total_effective (others nodes)) m.total_ram
    then false
    else not (too_slow quality)
