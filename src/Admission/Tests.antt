-- ===== src/Admission/Tests.antt =====
-- Two submissions that are both admitted before the first of them is counted.
use open_fabric.Common.{◌+◌, ◌≤◌, ◌≡◌, refl, true, false, List, [], ◌∷◌, arith}
use open_fabric.Common.Int.{pos, wrap64, ◌+ℤ◌}
use open_fabric.Admission.{AdmissionConfig, idle_system, Event, submits, starts, admit, step, run}
use open_fabric.Admission.Overshoot.{all_bypasses, in_flight-Bounded}

abbrev one_slot : AdmissionConfig
one_slot = record { max_queue_depth = 10; max_in_flight_total = 1; exceeds = λ n limit. false }

abbrev two_at_once : List Event
two_at_once = submits 50 true ∷ submits 50 true ∷ starts ∷ starts ∷ submits 50 true ∷ []

two_running : (run (idle_system one_slot) two_at_once).running ≡ 2
unfolding run step admit wrap64 ◌+ℤ◌
two_running = refl

in_flight-Bounded_example :
    let y = run (idle_system one_slot) two_at_once in
    (y.controller.in_flight ≡ pos y.running) × (y.running + 1 ≤ 1 + 2 + all_bypasses two_at_once)
unfolding step admit wrap64 ◌+ℤ◌
in_flight-Bounded_example =
    in_flight-Bounded one_slot 2 two_at_once (omega arith)
      (omega arith, (omega arith, (omega arith, (omega arith, (omega arith, omega arith)))))
      (omega arith)
