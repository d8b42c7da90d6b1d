-- ===== src/Shard/Cover.antt =====
-- The ranges of layers that a plan gives to the nodes.
use open_fabric.Common.{
  ℕ, suc, ◌-◌, ◌≤◌, ◌<◌, ◌≡◌, refl, sym, subst, ◌||◌, Bool, true, false, leb, none, List, [], ◌∷◌,
  arith, Bool-cases, inl, inr,
}
use open_fabric.Common.Int.{ℤ, pos, ltb_ℤ, leb_ℤ, ◌≤ℤ◌}
use open_fabric.Shard.{
  NodeInfo, ModelInfo, Shard, ShardPlan, GoLib, assign_from, assign_layers, attach, layers_for,
  is_last, shard_for, effective_ram, total_effective, planned, plan_over, plan_shards,
  filter_eligible,
}

-- The shards hold the layers from `cursor` below `total`, each once, in order, none of them empty.
abbrev pub Covers : ℕ → ℕ → List Shard → Type 0
Covers total cursor [] = cursor ≡ total
Covers total cursor (s ∷ ss) =
    (s.layer_start ≡ cursor) × (cursor ≤ s.layer_end) × Covers total (suc s.layer_end) ss

-- The shards stand on the first of the nodes, one each.
abbrev pub OnFirst : List Shard → List (NodeInfo × ℤ) → Type 0
OnFirst [] ns = Unit
OnFirst (s ∷ ss) [] = ⊥
OnFirst (s ∷ ss) ((n, _) ∷ ns) = (s.node_id ≡ n.id) × (s.node_name ≡ n.name) × OnFirst ss ns

attach-Covers :
    (m : ModelInfo) (cursor : ℕ) (s : Shard) (later : List Shard) (n : NodeInfo × ℤ)
    (ns : List (NodeInfo × ℤ))
    → (s.layer_start ≡ cursor) × (cursor ≤ s.layer_end) × (s.layer_end < m.total_layers)
    → (s.node_id ≡ n.0.id) × (s.node_name ≡ n.0.name)
    → (suc s.layer_end < m.total_layers
        → Covers m.total_layers (suc s.layer_end) later × OnFirst later ns)
    → Covers m.total_layers cursor (attach m s later) × OnFirst (attach m s later) (n ∷ ns)
unfolding attach
attach-Covers m cursor s later (n, e) ns (start, low, high) (id, name) rest =
    elim (Bool-cases (leb m.total_layers (suc s.layer_end))) [
      | inl all ↦ rw all ((start, low, ground arith), (id, name, tt))
      | inr more ↦
          let (covers, on) = rest (ground arith) in rw more ((start, low, covers), (id, name, on))
    ]

shard_for-fits :
    (m : ModelInfo) (n : NodeInfo) (cursor layers : ℕ)
    → cursor < m.total_layers
    → 1 ≤ layers
    → let s = shard_for m n cursor layers in
      (s.layer_start ≡ cursor) × (cursor ≤ s.layer_end) × (s.layer_end < m.total_layers)
unfolding shard_for
shard_for-fits m n cursor layers h k = ground arith

shard_for-last :
    (m : ModelInfo) (n : NodeInfo) (cursor : ℕ)
    → cursor < m.total_layers
    → suc (shard_for m n cursor (m.total_layers - cursor)).layer_end ≡ m.total_layers
unfolding shard_for
shard_for-last m n cursor h = ground arith

shard_for-named :
    (m : ModelInfo) (n : NodeInfo) (cursor layers : ℕ)
    → let s = shard_for m n cursor layers in (s.node_id ≡ n.id) × (s.node_name ≡ n.name)
unfolding shard_for
shard_for-named m n cursor layers = (refl, refl)

layers_for-positive :
    (go : GoLib) (m : ModelInfo) (e total : ℤ) (last : Bool) (cursor : ℕ)
    → cursor < m.total_layers
    → 1 ≤ layers_for go m e total last cursor
unfolding layers_for
layers_for-positive go m e total true cursor h = omega arith
layers_for-positive go m e total false cursor h = ground arith

assign_from-Covers :
    (go : GoLib) (m : ModelInfo) (total : ℤ) (cursor : ℕ) (n : NodeInfo × ℤ)
    (rest : List (NodeInfo × ℤ))
    → cursor < m.total_layers
    → Covers m.total_layers cursor (assign_from go m total cursor (n ∷ rest))
      × OnFirst (assign_from go m total cursor (n ∷ rest)) (n ∷ rest)
unfolding assign_from is_last layers_for
assign_from-Covers go m total cursor (n, e) [] h =
    attach-Covers m cursor _ [] (n, e) []
      (shard_for-fits m n cursor _ h (layers_for-positive go m e total true cursor h))
      (shard_for-named m n cursor _) (λ more. absurd (omega (arith, shard_for-last m n cursor h)))
assign_from-Covers go m total cursor (n, e) (next ∷ rest) h =
    attach-Covers m cursor _ _ (n, e) (next ∷ rest)
      (shard_for-fits m n cursor _ h (layers_for-positive go m e total false cursor h))
      (shard_for-named m n cursor _)
      (λ more.
        assign_from-Covers go m total
          (suc (shard_for m n cursor (layers_for go m e total false cursor)).layer_end) next rest
          more)

-- For a model of at least one layer and at least one node, whatever the shares are that rounding
-- gives: the shards hold each layer of the model exactly once, in order, with no shard empty, and
-- they stand on the first nodes, one each.
pub assign_layers-Covers :
    (go : GoLib) (m : ModelInfo) (n : NodeInfo × ℤ) (rest : List (NodeInfo × ℤ)) (total : ℤ)
    → 1 ≤ m.total_layers
    → Covers m.total_layers 0 (assign_layers go m (n ∷ rest) total)
      × OnFirst (assign_layers go m (n ∷ rest) total) (n ∷ rest)
unfolding assign_layers
assign_layers-Covers go m n rest total h = assign_from-Covers go m total 0 n rest h

plan_over-Covers :
    (go : GoLib) (m : ModelInfo) (nodes : List NodeInfo) (plan : ShardPlan)
    → 1 ≤ m.total_layers
    → plan_over go m nodes ≡ planned plan
    → (first : NodeInfo) × (rest : List NodeInfo) × (nodes ≡ first ∷ rest)
      × (plan.coordinator ≡ first.id)
      × (m.total_ram ≤ℤ total_effective (effective_ram m first rest))
      × Covers m.total_layers 0 plan.shards
      × OnFirst plan.shards (effective_ram m first rest)
unfolding plan_over effective_ram
plan_over-Covers go m [] plan some_layer h = absurd (ground arith)
plan_over-Covers go m (first ∷ rest) plan some_layer h =
    let ns = effective_ram m first rest in
    let total = total_effective ns in
    elim (Bool-cases (ltb_ℤ total m.total_ram)) [
      | inl short ↦ absurd (ground arith)
      | inr fits ↦
          let same : (plan.coordinator ≡ first.id) × (plan.shards ≡ assign_layers go m ns total) =
            ground arith in
          let (covers, on) = assign_layers-Covers go m _ _ total some_layer in
          (
            first,
            rest,
            refl,
            same.0,
            ground arith,
            subst (Covers m.total_layers 0) (sym same.1) covers,
            subst (λ ss. OnFirst ss ns) (sym same.1) on,
          )
    ]

-- When the dynamic planner fails and `PlanShards` still gives a plan: the memory of the eligible nodes,
-- the first of them less the cache and the system's share, is at least the model's; the first is
-- the coordinator; and the shards hold each layer of the model exactly once, on the first nodes.
pub plan_shards-Covers :
    (go : GoLib) (m : ModelInfo) (nodes : List NodeInfo) (plan : ShardPlan)
    → plan_shards go m nodes none ≡ planned plan
    → (first : NodeInfo) × (rest : List NodeInfo) × (filter_eligible go m nodes ≡ first ∷ rest)
      × (plan.coordinator ≡ first.id)
      × (m.total_ram ≤ℤ total_effective (effective_ram m first rest))
      × Covers m.total_layers 0 plan.shards
      × OnFirst plan.shards (effective_ram m first rest)
unfolding plan_shards
plan_shards-Covers go m nodes plan h =
    elim (Bool-cases (leb m.total_layers 0 || leb_ℤ m.total_ram (pos 0))) [
      | inl empty ↦ absurd (ground arith)
      | inr full ↦
          plan_over-Covers go m (filter_eligible go m nodes) plan (ground arith) (rw full at h)
    ]
