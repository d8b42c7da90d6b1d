-- ===== src/Admission/Overshoot.antt =====
-- By how much the tasks in flight can pass the limit.
use open_fabric.Common.{ℕ, ◌+◌, ◌≤◌, ◌<◌, ◌≡◌, refl, eqb, if◌then◌else◌, List, [], ◌∷◌, arith}
use open_fabric.Common.Int.{pos, ◌+ℤ◌, ◌-ℤ◌, wrap64}
use open_fabric.Admission.{
  AdmissionConfig, priority_critical, System, idle_system, Event, submits, starts, recovers, ends,
  step, run,
}

-- The event brings a task in past the limit.
abbrev pub bypasses : Event → ℕ
bypasses (submits priority policy_accepts) = if eqb priority priority_critical then 1 else 0
bypasses recovers = 1
bypasses _ = 0

abbrev pub all_bypasses : List Event → ℕ
all_bypasses [] = 0
all_bypasses (e ∷ es) = bypasses e + all_bypasses es

-- Never more than `k` goroutines at once stand between `Admit` and `IncrementInFlight`.
abbrev pub AtMostAdmitted : ℕ → System → List Event → Type 0
AtMostAdmitted k y [] = y.admitted ≤ k
AtMostAdmitted k y (e ∷ es) = (y.admitted ≤ k) × AtMostAdmitted k (step y e) es

-- After events with `c` bypasses.
pub record Bounded (k c : ℕ) (y : System) : Type 0 where
  pub counted : y.controller.in_flight ≡ pos y.running
  pub below : y.running + y.admitted + 1 ≤ y.controller.cfg.max_in_flight_total + k + c

now_admitted : (k : ℕ) (y : System) (es : List Event) → AtMostAdmitted k y es → y.admitted ≤ k
now_admitted k y [] h = h
now_admitted k y (e ∷ es) h = h.0

step-Bounded :
    (k c : ℕ) (y : System) (e : Event)
    → (step y e).admitted ≤ k
    → y.controller.cfg.max_in_flight_total + k + c + bypasses e < 4611686018427387904
    → Bounded k c y
    → Bounded k (c + bypasses e) (step y e)
      × ((step y e).controller.cfg.max_in_flight_total ≡ y.controller.cfg.max_in_flight_total)
unfolding step wrap64 ◌+ℤ◌ ◌-ℤ◌
step-Bounded k c y (submits priority policy_accepts) h s b = ground arith
step-Bounded k c y starts h s b = ground arith
step-Bounded k c y recovers h s b = ground arith
step-Bounded k c y ends h s b = ground arith

run-Bounded :
    (k c : ℕ) (y : System) (es : List Event)
    → AtMostAdmitted k y es
    → y.controller.cfg.max_in_flight_total + k + c + all_bypasses es < 4611686018427387904
    → Bounded k c y
    → ((run y es).controller.in_flight ≡ pos (run y es).running)
      × ((run y es).running + 1 ≤ y.controller.cfg.max_in_flight_total + k + c + all_bypasses es)
unfolding run
run-Bounded k c y [] h s b = (b.counted, omega (arith, b.below))
run-Bounded k c y (e ∷ es) h s b =
    let (b', same) = step-Bounded k c y e (now_admitted k (step y e) es h.1) (omega arith) b in
    let (counted, below) =
      run-Bounded k (c + bypasses e) (step y e) es h.1 (omega (arith, same)) b' in
    (counted, omega (arith, below, same))

-- From an idle cluster, with at most `k` submissions at once between their admission and their
-- start, the counter is the number of running tasks, and that number passes the configured limit
-- by at most `k - 1` and the number of critical submissions and recovered tasks in the history.
pub in_flight-Bounded :
    (cfg : AdmissionConfig) (k : ℕ) (es : List Event)
    → 1 ≤ k
    → AtMostAdmitted k (idle_system cfg) es
    → cfg.max_in_flight_total + k + all_bypasses es < 4611686018427387904
    → let y = run (idle_system cfg) es in
      (y.controller.in_flight ≡ pos y.running)
      × (y.running + 1 ≤ cfg.max_in_flight_total + k + all_bypasses es)
in_flight-Bounded cfg k es h a s =
    let (counted, below) =
      run-Bounded k 0 (idle_system cfg) es a (omega arith)
        (record { counted = refl; below = omega arith }) in
    (counted, omega (arith, below))
