-- ===== src/Gpu/Tests.antt =====
-- Runs on one device, and the theorems on the GPU parts at concrete inputs.
use open_fabric.Common.{
  insert, ℕ, ◌+◌, ◌≤◌, ◌<◌, ◌≡◌, refl, String, true, false, Option, some, List, [], ◌∷◌, lookup,
  string_eq, nat_eq, arith, inl, if◌then◌else◌, ◌==◌,
}
use open_fabric.Common.Int.{wrap64, ◌+ℤ◌, ℤ, pos, ◌<ℤ◌, pos_part, ◌-ℤ◌}
use open_fabric.Gpu.Budget.{
  run, release, Reservation, pending, active, released, Manager, new_manager, Request, VramStats,
  ReserveError, granted, denied, effective_free, new_reservation, safety_margin_bytes, reserve,
  Call, reserves, activates, releases, expires, step, lowest_priority_active, stats,
}
use open_fabric.Gpu.Budget.Live.{live_sum, Sized, weight}
use open_fabric.Gpu.Budget.Admission.{InBounds, reserve_exact, Budgeted, run-Budgeted}
use open_fabric.Gpu.Budget.Lifecycle.{Forward, step-Forward}
use open_fabric.Gpu.Budget.Lowest.{NoneBelow}
use open_fabric.Gpu.Preempt.{
  Preemptor, PreemptRequest, PreemptResult, preempt, suspended, preempt_candidate, finish,
  stop_task,
}
use open_fabric.Gpu.Preempt.Eviction.{preempt_frees}
use open_fabric.Gpu.Recovery.{Surroundings, tick, check, recover}
use open_fabric.Gpu.Recovery.Steps.{can_stop}
use open_fabric.Gpu.Thermal.{Monitor, default_policy, normal, is_throttled}
use open_fabric.Gpu.Thermal.Hysteresis.{
  IsOrdered, held_back, sample_readings, is_throttled-held_back,
}

abbrev entry : String → String → ℕ → Reservation
entry id task priority = record {
  id = id;
  device_index = 0;
  bytes_reserved = pos 100000000;
  task_id = task;
  task_type = "llm";
  priority = pos priority;
  status = active;
  created_at = 1;
  activated_at = 2;
  released_at = 0;
  expires_at = 60000000001;
}

abbrev busy : Manager
busy = record {
  device_index = 0;
  reservations =
      ("r1", entry "r1" "t1" 5) ∷ ("r2", record (entry "r2" "t2" 3) { status = pending }) ∷ [];
}

abbrev reading : VramStats
reading = record {
  total = pos 8000000000;
  used = pos 2000000000;
  free = pos 6000000000;
  reserved = pos 500000000;
  fragmentation = pos 100000000;
}

abbrev ask : Request
ask = record { task_id = "t3"; task_type = "llm"; bytes_needed = pos 1000000000; priority = pos 4 }

busy-InBounds : InBounds busy reading
unfolding live_sum effective_free wrap64 ◌-ℤ◌
busy-InBounds = record { sized = (refl, (refl, tt)); small = omega arith; reading = omega arith }

reserve_exact_example :
    let held = live_sum busy.reservations in
    let (m', answer) = reserve busy ask (some reading) "r3" 9 in
    (held + safety_margin_bytes + 1000000000 ≤ pos_part (effective_free reading)
      → (answer ≡ granted (new_reservation busy ask "r3" 9))
        × (live_sum m'.reservations ≡ held + 1000000000)
        × Sized m'.reservations)
    × (pos_part (effective_free reading) < held + safety_margin_bytes + 1000000000
        → (m' ≡ busy) × ((e : ReserveError) × (answer ≡ denied e)))
unfolding lookup
reserve_exact_example = reserve_exact busy ask reading "r3" 9 1000000000 busy-InBounds refl refl

abbrev day : List Call
day = reserves ask (some reading) "r1" 9 ∷ activates "r1" 10 ∷ expires 11 ∷ releases "r1" 12 ∷ []

run-Budgeted_example : Budgeted 6000000000 (run (new_manager 0) day)
unfolding effective_free wrap64 ◌-ℤ◌ lookup live_sum
run-Budgeted_example =
    run-Budgeted 6000000000 (new_manager 0) day (omega arith)
      ((omega arith, refl, refl), (tt, (tt, (tt, tt)))) (record { sized = tt; margin = inl refl })

step-Forward_example :
    (r' : Reservation) × (lookup "r1" (step busy (releases "r1" 9)).reservations ≡ some r')
    × Forward (entry "r1" "t1" 5) r'
unfolding lookup
step-Forward_example = step-Forward busy (releases "r1" 9) "r1" (entry "r1" "t1" 5) tt refl

abbrev ended_entry : Reservation
ended_entry = record (entry "r1" "t1" 5) { status = released; released_at = 3 }

abbrev after_end : Manager
after_end = record { device_index = 0; reservations = ("r1", ended_entry) ∷ [] }

abbrev tasks : Preemptor
tasks = record { cancel_funcs = ("t1", 11) ∷ []; suspend_funcs = ("t1", 12) ∷ [] }

abbrev urgent : ℕ → PreemptRequest
urgent priority = record {
  required_bytes = pos 1000;
  requester_task_id = "t9";
  requester_priority = pos priority;
  device_index = 0;
}

abbrev suspended_result : PreemptResult
suspended_result = record {
  preempted_task_id = "t1";
  freed_bytes = pos 100000000;
  method = suspended;
}

preempt_frees_example :
    let m' = (preempt tasks busy (urgent 9) (λ f. true) [] 20).manager in
    (victim : Reservation) × ("t1" ≡ victim.task_id)
    × (pos 100000000 ≡ victim.bytes_reserved)
    × (victim.status ≡ active)
    × (victim.priority <ℤ pos 9)
    × NoneBelow victim busy.reservations
    × (lookup victim.id m'.reservations
        ≡ some (record victim { status = released; released_at = 20 }))
    × (live_sum m'.reservations + weight victim ≡ live_sum busy.reservations)
unfolding preempt lowest_priority_active lookup
preempt_frees_example =
    preempt_frees tasks busy (urgent 9) (λ f. true) 20 suspended_result
      (refl, refl, (refl, refl, tt)) refl

abbrev short_of_memory : VramStats
short_of_memory = record reading { free = pos 1000 }

abbrev around : Surroundings
around = record {
  metal = false;
  device_index = 0;
  works = λ f. true;
  meanwhile = [];
  cache_clears = true;
  now = 20;
}

-- The conditions of the eviction hold at this input, and the tick evicts the task t1.
evicts_t1 :
    (lowest_priority_active busy ≡ some (entry "r1" "t1" 5))
    × (can_stop tasks around.works "t1" ≡ true)
    × ((tick tasks busy around (some short_of_memory)).manager.reservations
        ≡ ("r1", record (entry "r1" "t1" 5) { status = released; released_at = 20 })
          ∷ ("r2", record (entry "r2" "t2" 3) { status = pending })
          ∷ [])
unfolding tick check recover preempt lowest_priority_active lookup insert release stats
    preempt_candidate finish stop_task wrap64 ◌+ℤ◌ run
evicts_t1 = (refl, refl, refl)

abbrev watch : Monitor
watch = record {
  policy = default_policy;
  state = normal;
  last_temp = [];
  handlers = record { throttle = true; recover = true; emergency = true };
}

default-IsOrdered : IsOrdered default_policy
default-IsOrdered = record {
  recover_first = omega arith;
  warn_first = omega arith;
  throttle_first = omega arith;
}

abbrev afternoon : List ℤ
afternoon = pos 86 ∷ pos 72 ∷ pos 69 ∷ []

is_throttled-held_back_example :
    is_throttled (sample_readings watch 0 afternoon)
    ≡ held_back default_policy (is_throttled watch) afternoon
is_throttled-held_back_example =
    is_throttled-held_back watch 0 afternoon default-IsOrdered
      (omega arith, (omega arith, (omega arith, tt)))

abbrev two_devices : ℕ → Option ℤ
two_devices device = some (if device == 0 then pos 95 else pos 40)
