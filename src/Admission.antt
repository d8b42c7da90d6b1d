-- ===== src/Admission.antt =====
-- internal/scheduler/admission.go: the admission controller, and the steps of internal/scheduler/scheduler.go
-- that use it. Counters are int64; a configured limit below 0 acts as 0 does.
pub mod Overshoot
mod Tests
use open_fabric.Common.{
  ℕ, zero, suc, ◌+◌, ◌*◌, ◌/◌, max, Bool, true, false, ◌&&◌, eqb, if◌then◌else◌, Option, none, some,
  List, [], ◌∷◌,
}
use open_fabric.Common.Int.{ℤ, pos, ◌+ℤ◌, ◌-ℤ◌, wrap64, ltb_ℤ, leb_ℤ, pos_part}

-- `exceeds` is the floating-point test of the load against the threshold.
pub record AdmissionConfig : Type 0 where
  pub max_queue_depth : ℕ
  pub max_in_flight_total : ℕ
  pub exceeds : ℤ → ℕ → Bool

pub data Reason : Type 0 where
  at_capacity busy : ℤ → Reason

-- A result without a reason is accepted; the wait is in nanoseconds.
pub record AdmissionResult : Type 0 where
  pub accepted : Bool
  pub reason : Option Reason
  pub wait_estimate : ℤ
  pub backpressure : Bool

pub record AdmissionController : Type 0 where
  pub cfg : AdmissionConfig
  pub in_flight : ℤ
  pub queued : ℤ

abbrev pub priority_critical : ℕ
priority_critical = 100

-- The wait of a task behind `depth` others, none of it when the queue is empty.
wait_behind : ℕ → ℤ → ℤ
wait_behind limit depth =
    if ltb_ℤ (pos 0) depth then wrap64 (pos (pos_part depth / max limit 1 * 30000000000)) else pos 0

accept : Bool → ℤ → AdmissionResult
accept backpressure wait = record {
  accepted = true;
  reason = none;
  wait_estimate = wait;
  backpressure = backpressure;
}

reject : Reason → AdmissionResult
reject r = record { accepted = false; reason = some r; wait_estimate = pos 0; backpressure = false }

-- `Admit`, for the priority of the task.
unfoldable pub admit : AdmissionController → ℕ → AdmissionResult
unfolding wait_behind accept reject
admit a priority =
    if eqb priority priority_critical
    then accept false (pos 0)
    else if leb_ℤ (pos a.cfg.max_in_flight_total) a.in_flight
    then reject (at_capacity a.in_flight)
    else if leb_ℤ (pos a.cfg.max_queue_depth) a.queued
    then reject (busy a.queued)
    else accept (a.cfg.exceeds a.in_flight a.cfg.max_in_flight_total)
        (wait_behind a.cfg.max_in_flight_total a.queued)

unfoldable pub increment_in_flight : AdmissionController → AdmissionController
increment_in_flight a = record a { in_flight = wrap64 (a.in_flight +ℤ pos 1) }

unfoldable pub decrement_in_flight : AdmissionController → AdmissionController
decrement_in_flight a = record a { in_flight = wrap64 (a.in_flight -ℤ pos 1) }

unfoldable pub increment_queue : AdmissionController → AdmissionController
increment_queue a = record a { queued = wrap64 (a.queued +ℤ pos 1) }

unfoldable pub decrement_queue : AdmissionController → AdmissionController
decrement_queue a = record a { queued = wrap64 (a.queued -ℤ pos 1) }

-- The controller with the goroutines around it: those in `Submit` between `Admit` and
-- `IncrementInFlight`, and the tasks that run.
pub record System : Type 0 where
  pub controller : AdmissionController
  pub admitted : ℕ
  pub running : ℕ

abbrev pub idle_system : AdmissionConfig → System
idle_system cfg = record {
  controller = record { cfg = cfg; in_flight = pos 0; queued = pos 0 };
  admitted = 0;
  running = 0;
}

-- `Submit` up to the policy engine's word, which may refuse, and from there to the start of the task;
-- the start of a task that is recovered; the end of a task.
pub data Event : Type 0 where
  submits : ℕ → Bool → Event
  starts recovers ends : Event

submit_step : System → Bool → Bool → System
submit_step y true true = record y { admitted = suc y.admitted }
submit_step y _ _ = y

start_step : System → ℕ → System
unfolding increment_in_flight
start_step y zero = y
start_step y (suc n) = record y {
  controller = increment_in_flight y.controller;
  admitted = n;
  running = suc y.running;
}

end_step : System → ℕ → System
unfolding decrement_in_flight
end_step y zero = y
end_step y (suc n) = record y { controller = decrement_in_flight y.controller; running = n }

unfoldable pub step : System → Event → System
unfolding submit_step start_step end_step admit increment_in_flight
step y (submits priority policy_accepts) =
    submit_step y (admit y.controller priority).accepted policy_accepts
step y starts = start_step y y.admitted
step y recovers = record y {
  controller = increment_in_flight y.controller;
  running = suc y.running;
}
step y ends = end_step y y.running

unfoldable pub run : System → List Event → System
run y [] = y
run y (e ∷ es) = run (step y e) es
