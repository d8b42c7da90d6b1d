-- ===== src/Gpu/Thermal/Hysteresis.antt =====
-- One device: when new tasks are held back.
use open_fabric.Common.{
  ℕ, ◌≡◌, refl, ap, ◌∙◌, sym, subst, Bool, true, false, if◌then◌else◌, some, List, [], ◌∷◌, arith,
  nat_eq, All,
}
use open_fabric.Common.Int.{ℤ, pos, ◌≤ℤ◌, leb_ℤ, ltb_ℤ}
use open_fabric.Gpu.Thermal.{
  ThermalPolicy, ThermalState, Monitor, throttling, is_throttled, classify, sample,
}

-- The thresholds stand in the order that the policy's comments give.
pub record IsOrdered (p : ThermalPolicy) : Type 0 where
  pub recover_first : p.recovery_celsius ≤ℤ p.warn_celsius
  pub warn_first : p.warn_celsius ≤ℤ p.throttle_celsius
  pub throttle_first : p.throttle_celsius ≤ℤ p.emergency_celsius

-- A switch with two thresholds: on from `throttle` up, off below `recovery`, unchanged between.
abbrev pub held_back : ThermalPolicy → Bool → List ℤ → Bool
held_back p before [] = before
held_back p before (t ∷ ts) =
    held_back p
      (if leb_ℤ p.throttle_celsius t
        then true
        else if ltb_ℤ t p.recovery_celsius
        then false
        else before)
      ts

-- The samples of one device, a reading each.
pub sample_readings : Monitor → ℕ → List ℤ → Monitor
sample_readings m device [] = m
sample_readings m device (t ∷ ts) =
    sample_readings (sample m (some (device ∷ [])) (λ d. some t)).0 device ts

classify-throttling :
    (p : ThermalPolicy) (s : ThermalState) (t : ℤ)
    → IsOrdered p
    → throttling (classify p s t).0 ≡ (
        if leb_ℤ p.throttle_celsius t
        then true
        else if ltb_ℤ t p.recovery_celsius
        then false
        else throttling s)
unfolding classify
classify-throttling p s t o = ground arith

sample_one :
    (m : Monitor) (device : ℕ) (t : ℤ)
    → pos 0 ≤ℤ t
    → ((sample m (some (device ∷ [])) (λ d. some t)).0.state ≡ (classify m.policy m.state t).0)
      × ((sample m (some (device ∷ [])) (λ d. some t)).0.policy ≡ m.policy)
unfolding sample
sample_one m device t h = ground arith

-- With thresholds in order and readings of one device, none negative, new tasks are held back after
-- the samples exactly as the switch with two thresholds says of the readings.
pub is_throttled-held_back :
    (m : Monitor) (device : ℕ) (ts : List ℤ)
    → IsOrdered m.policy
    → All (λ t. pos 0 ≤ℤ t) ts
    → is_throttled (sample_readings m device ts) ≡ held_back m.policy (is_throttled m) ts
unfolding is_throttled sample_readings
is_throttled-held_back m device [] o h = refl
is_throttled-held_back m device (t ∷ ts) o h =
    let m' = (sample m (some (device ∷ [])) (λ d. some t)).0 in
    let (state, policy) = sample_one m device t h.0 in
    let rest = is_throttled-held_back m' device ts (subst IsOrdered (sym policy) o) h.1 in
    rest
    ∙ ap (λ p. held_back p (throttling m'.state) ts) policy
    ∙ ap (λ b. held_back m.policy b ts)
        (ap throttling state ∙ classify-throttling m.policy m.state t o)
