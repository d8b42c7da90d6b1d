-- ===== src/Gpu/Recovery/Steps.antt =====
-- What one tick of the watcher does to the reservations.
use open_fabric.Common.{
  ℕ, ◌+◌, ◌≡◌, String, Bool, true, false, Option, none, some, [], lookup, string_eq,
}
use open_fabric.Gpu.Budget.{Manager, Reservation, active, released, VramStats}
use open_fabric.Gpu.Budget.Live.{live_sum, weight}
use open_fabric.Gpu.Budget.Lowest.{NoneBelow}
use open_fabric.Gpu.Preempt.{Preemptor, stop_task, Stopped}
use open_fabric.Gpu.Recovery.{RecoveryResult, Checked, Action, Cause}

-- A tick that changes nothing and reports nothing.
abbrev pub quiet : Manager → Checked
quiet m = record { manager = m; effects = []; result = none }

-- A task can be stopped: its suspend function is registered and works, or it has a cancel function.
abbrev pub can_stop : Preemptor → (ℕ → Bool) → String → Bool
can_stop p works task = elim (lookup task p.cancel_funcs) [
  | some c ↦ true
  | none ↦ elim (lookup task p.suspend_funcs) [ none ↦ false | some s ↦ works s ]
]

-- The state after a tick that evicted `victim`.
pub record Freed (m : Manager) (c : Checked) (victim : Reservation) (now : ℕ) : Type 0 where
  pub on : victim.status ≡ active
  pub least : NoneBelow victim m.reservations
  pub gone :
      lookup victim.id c.manager.reservations
      ≡ some (record victim { status = released; released_at = now })
  pub less : live_sum c.manager.reservations + weight victim ≡ live_sum m.reservations

abbrev pub reports : VramStats → Cause → Action → Option RecoveryResult
reports v cause action = some (record { snapshot = v; cause = cause; action = action })

way_out : Preemptor → (ℕ → Bool) → String → Stopped
way_out p works task = stop_task works (lookup task p.suspend_funcs) (lookup task p.cancel_funcs)
