-- ===== src/Shard/Distribute.antt =====
-- When inference is spread over several nodes.
use open_fabric.Common.{
  ℕ, ◌≤◌, ◌≡◌, ◌↔◌, refl, true, false, List, [], ◌∷◌, Dict, arith, String, All,
}
use open_fabric.Common.Int.{◌<ℤ◌, ◌≤ℤ◌}
use open_fabric.Shard.{
  NodeInfo, ModelInfo, should_distribute_inference, fits_gpu, fits_cpu, too_slow, others,
  total_effective,
}

-- The node alone holds the model neither in its memory nor in its GPU's.
abbrev pub TooSmall : ModelInfo → NodeInfo → Type 0
TooSmall m n = (n.free_ram <ℤ m.total_ram) × (n.has_gpu ≡ true → n.gpu_vram_free <ℤ m.total_ram)

fits-TooSmall :
    (m : ModelInfo) (ns : List NodeInfo)
    → fits_gpu m ns ≡ false
    → fits_cpu m ns ≡ false
    → All (TooSmall m) ns
unfolding fits_gpu fits_cpu
fits-TooSmall m [] g c = tt
fits-TooSmall m (n ∷ ns) g c = (ground arith, fits-TooSmall m ns (ground arith) (ground arith))

TooSmall-fits :
    (m : ModelInfo) (ns : List NodeInfo)
    → All (TooSmall m) ns
    → (fits_gpu m ns ≡ false) × (fits_cpu m ns ≡ false)
unfolding fits_gpu fits_cpu
TooSmall-fits m [] h = (refl, refl)
TooSmall-fits m (n ∷ ns) h = ground (arith, TooSmall-fits m ns h.1)

too_slow_iff :
    (q : Dict String ℕ) → (too_slow q ≡ false) ↔ All (λ (p : String × ℕ). p.1 ≤ 5000000) q
unfolding too_slow
too_slow_iff [] = (λ h. tt, λ h. refl)
too_slow_iff ((link, p50) ∷ q) =
    let (to, from) = too_slow_iff q in
    (λ h. (ground arith, to (ground arith)), λ h. ground (arith, from h.1))

-- Inference is distributed exactly when no single node holds the model, in memory or on its GPU,
-- the nodes together do, and the median latency of every link is at most five milliseconds.
pub should_distribute_inference_iff :
    (m : ModelInfo) (nodes : List NodeInfo) (quality : Dict String ℕ)
    → (should_distribute_inference m nodes quality ≡ true) ↔ (
        All (TooSmall m) nodes
        × (m.total_ram ≤ℤ total_effective (others nodes))
        × All (λ (p : String × ℕ). p.1 ≤ 5000000) quality)
unfolding should_distribute_inference
should_distribute_inference_iff m nodes quality = (
  λ h. (
    fits-TooSmall m nodes (ground arith) (ground arith),
    ground arith,
    (too_slow_iff quality).0 (ground arith),
  ),
  λ (small, enough, fast).
      let (g, c) = TooSmall-fits m nodes small in
      rw g (rw c (ground (arith, (too_slow_iff quality).1 fast))),
)
