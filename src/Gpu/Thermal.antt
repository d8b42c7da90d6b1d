-- ===== src/Gpu/Thermal.antt =====
-- internal/gpu/thermal: the temperature monitor. Temperatures are float64 in the source and are only
-- compared: they are whole numbers of some small unit here.
pub mod Hysteresis
pub mod Masking
use open_fabric.Common.{
  ℕ, Bool, true, false, ◌&&◌, ◌||◌, not, if◌then◌else◌, Option, none, some, List, [], ◌∷◌, ◌++◌,
  Dict, insert, lookup, nat_eq,
}
use open_fabric.Common.Int.{ℤ, pos, leb_ℤ, ltb_ℤ}

pub record ThermalPolicy : Type 0 where
  pub warn_celsius : ℤ
  pub throttle_celsius : ℤ
  pub emergency_celsius : ℤ
  pub recovery_celsius : ℤ

-- `DefaultPolicy`, in degrees.
abbrev pub default_policy : ThermalPolicy
default_policy = record {
  warn_celsius = pos 75;
  throttle_celsius = pos 85;
  emergency_celsius = pos 92;
  recovery_celsius = pos 70;
}

pub data ThermalState : Type 0 where
  normal warning throttled emergency : ThermalState

pub data Callback : Type 0 where
  on_throttle on_emergency : ℕ → ℤ → Callback
  on_recover : ℕ → Callback

-- Which callbacks are not nil.
pub record Handlers : Type 0 where
  pub throttle : Bool
  pub recover : Bool
  pub emergency : Bool

pub record Monitor : Type 0 where
  pub policy : ThermalPolicy
  pub state : ThermalState
  pub last_temp : Dict ℕ ℤ
  pub handlers : Handlers

unfoldable pub new_monitor : ThermalPolicy → Handlers → Monitor
new_monitor policy handlers = record {
  policy = policy;
  state = normal;
  last_temp = [];
  handlers = handlers;
}

abbrev pub throttling : ThermalState → Bool
throttling throttled = true
throttling emergency = true
throttling _ = false

-- `IsThrottled`.
unfoldable pub is_throttled : Monitor → Bool
is_throttled m = throttling m.state

-- `TemperatureOf`: 0 for a device that was not sampled.
unfoldable pub temperature_of : Monitor → ℕ → ℤ
temperature_of m device = elim (lookup device m.last_temp) [ none ↦ pos 0 | some t ↦ t ]

abbrev is_normal : ThermalState → Bool
is_normal normal = true
is_normal _ = false

abbrev is_emergency : ThermalState → Bool
is_emergency emergency = true
is_emergency _ = false

pub data Trigger : Type 0 where
  nothing throttles recovers alarms : Trigger

-- The `switch` of `Sample`: the new state and the callback to fire.
unfoldable pub classify : ThermalPolicy → ThermalState → ℤ → ThermalState × Trigger
classify p s temp =
    if leb_ℤ p.emergency_celsius temp
    then if is_emergency s then (s, nothing) else (emergency, alarms)
    else if leb_ℤ p.throttle_celsius temp
    then if throttling s then (s, nothing) else (throttled, throttles)
    else if leb_ℤ p.warn_celsius temp
    then if is_normal s then (warning, nothing) else (s, nothing)
    else if ltb_ℤ temp p.recovery_celsius
    then if is_normal s then (s, nothing) else (normal, recovers)
    else (s, nothing)

fire : Handlers → Trigger → ℕ → ℤ → List Callback
fire h nothing device temp = []
fire h throttles device temp = if h.throttle then on_throttle device temp ∷ [] else []
fire h recovers device temp = if h.recover then on_recover device ∷ [] else []
fire h alarms device temp = if h.emergency then on_emergency device temp ∷ [] else []

apply_reading : Monitor → ℕ → ℤ → Monitor × List Callback
unfolding classify fire
apply_reading m device temp =
    let (s, trigger) = classify m.policy m.state temp in
    (
      record m { state = s; last_temp = insert device temp m.last_temp },
      fire m.handlers trigger device temp,
    )

-- The body of the loop, for the answer of `Temperature`.
sample_device : Monitor → ℕ → Option ℤ → Monitor × List Callback
unfolding apply_reading
sample_device m device none = (m, [])
sample_device m device (some temp) =
    if ltb_ℤ temp (pos 0) then (m, []) else apply_reading m device temp

unfoldable pub sample_all : Monitor → (ℕ → Option ℤ) → List ℕ → Monitor × List Callback
unfolding sample_device
sample_all m temperature [] = (m, [])
sample_all m temperature (device ∷ devices) =
    let (m', fired) = sample_device m device (temperature device) in
    let (m'', later) = sample_all m' temperature devices in (m'', fired ++ later)

-- `Sample`, with the answers of the backend.
unfoldable pub sample : Monitor → Option (List ℕ) → (ℕ → Option ℤ) → Monitor × List Callback
unfolding sample_all
sample m none temperature = (m, [])
sample m (some devices) temperature = sample_all m temperature devices
