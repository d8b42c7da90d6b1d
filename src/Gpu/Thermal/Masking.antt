-- ===== src/Gpu/Thermal/Masking.antt =====
-- Several devices share one state: what the last device says overrules the others.
use open_fabric.Common.{ℕ, ◌≡◌, true, false, Option, some, [], ◌∷◌, arith, nat_eq}
use open_fabric.Common.Int.{ℤ, pos, ◌≤ℤ◌, ◌<ℤ◌}
use open_fabric.Gpu.Thermal.{normal, Monitor, on_emergency, on_recover, is_throttled, sample}
use open_fabric.Gpu.Thermal.Hysteresis.{IsOrdered}

-- One sample over two devices, the first at or above the emergency threshold and the second below
-- the recovery one, with all callbacks set and no emergency before: the alarm of the first is
-- raised, and at once called off by the second, and new tasks are admitted though the first device
-- is still that hot.
pub cool_device-masks_hot :
    (m : Monitor) (hot cool : ℕ) (temperature : ℕ → Option ℤ) (high low : ℤ)
    → IsOrdered m.policy
    → m.state ≡ normal
    → (m.handlers.emergency ≡ true) × (m.handlers.recover ≡ true)
    → temperature hot ≡ some high
    → temperature cool ≡ some low
    → m.policy.emergency_celsius ≤ℤ high
    → low <ℤ m.policy.recovery_celsius
    → (pos 0 ≤ℤ low) × (pos 0 ≤ℤ high)
    → let (m', fired) = sample m (some (hot ∷ cool ∷ [])) temperature in
      (is_throttled m' ≡ false)
      × (m'.state ≡ normal)
      × (fired ≡ on_emergency hot high ∷ on_recover cool ∷ [])
unfolding sample is_throttled
cool_device-masks_hot m hot cool temperature high low o s h th tc e r p = ground arith
