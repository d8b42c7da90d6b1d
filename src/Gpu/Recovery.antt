-- ===== src/Gpu/Recovery.antt =====
-- internal/gpu/recovery/recovery.go: the watcher that frees memory when the device runs out of it.
pub mod Steps
use open_fabric.Common.{
  ℕ, ◌+◌, ◌/◌, String, Bool, true, false, if◌then◌else◌, Option, none, some, List, [],
}
use open_fabric.Common.Int.{trunc_div, ℤ, pos, negsuc, ◌-ℤ◌, ◌*ℤ◌, ltb_ℤ, wrap64}
use open_fabric.Gpu.Budget.{Manager, VramStats, stats, Call}
use open_fabric.Gpu.Preempt.{
  Preemptor, PreemptRequest, Preemption, preempt, Outcome, preempted, refused, Effect,
}

pub data Cause : Type 0 where
  active_tasks_over_budget high_fragmentation unknown : Cause

-- `diagnoseCause`.
unfoldable pub diagnose_cause : Manager → VramStats → Cause
unfolding trunc_div
diagnose_cause m v =
    if ltb_ℤ (trunc_div (wrap64 (v.total *ℤ pos 8)) 10) (stats m).active_bytes
    then active_tasks_over_budget
    else if ltb_ℤ (trunc_div (wrap64 (v.total *ℤ pos 2)) 10) v.fragmentation
    then high_fragmentation
    else unknown

pub data Action : Type 0 where
  evicted_task : String → Action
  cleared_cache recovery_failed : Action

-- `RecoveryResult` with its event; `Success` is that the action is not `recovery_failed`.
pub record RecoveryResult : Type 0 where
  pub snapshot : VramStats
  pub cause : Cause
  pub action : Action

-- 512 MB on Metal, 256 MB elsewhere.
abbrev pub critical_threshold : Bool → ℕ
critical_threshold metal = if metal then 536870912 else 268435456

-- What the watcher is given of its surroundings at one check.
pub record Surroundings : Type 0 where
  pub metal : Bool
  pub device_index : ℕ
  pub works : ℕ → Bool
  pub meanwhile : List Call
  pub cache_clears : Bool
  pub now : ℕ

pub oom_request : Surroundings → PreemptRequest
oom_request s = record {
  required_bytes = pos (critical_threshold s.metal);
  requester_task_id = "oom-recovery";
  requester_priority = pos 999;
  device_index = s.device_index;
}

pub action_of : Bool → Outcome → Action
action_of cache_clears (preempted r) = evicted_task r.preempted_task_id
action_of true (refused e) = cleared_cache
action_of false (refused e) = recovery_failed

pub record Checked : Type 0 where
  pub manager : Manager
  pub effects : List Effect
  pub result : Option RecoveryResult

-- `recover`, with the event that `Check` made.
unfoldable pub recover : Preemptor → Manager → Surroundings → VramStats → Cause → Checked
unfolding oom_request action_of
recover p m s v cause =
    let done = preempt p m (oom_request s) s.works s.meanwhile s.now in
    record {
      manager = done.manager;
      effects = done.effects;
      result =
          some (record {
            snapshot = v;
            cause = cause;
            action = action_of s.cache_clears done.outcome;
          });
    }

unharmed : Manager → Checked
unharmed m = record { manager = m; effects = []; result = none }

-- `Check`, with the reading of the backend.
unfoldable pub check : Preemptor → Manager → Surroundings → Option VramStats → Checked
unfolding unharmed
check p m s none = unharmed m
check p m s (some v) =
    if ltb_ℤ (pos (critical_threshold s.metal)) v.free
    then unharmed m
    else recover p m s v (diagnose_cause m v)

-- One tick of the loop in `Start`.
unfoldable pub tick : Preemptor → Manager → Surroundings → Option VramStats → Checked
unfolding unharmed
tick p m s v = if ltb_ℤ (pos 0) (stats m).active_bytes then check p m s v else unharmed m
