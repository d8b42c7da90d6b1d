-- ===== src/Breaker/Trip.antt =====
-- When a breaker opens, and what holds of it after any history of calls.
use open_fabric.Common.{Bool, true, false, ℕ, suc, ◌≤◌, ◌<◌, ◌≡◌, String, List, [], ◌∷◌, arith}
use open_fabric.Breaker.{
  NodeBreaker, BreakerConfig, closed, half_open, Call, asks, succeeds, fails, new_node_breaker,
  step, run,
}

-- With both thresholds at least 1: a closed breaker is below its failure threshold, and a breaker
-- on probation is below its success threshold.
pub record IsSound (b : NodeBreaker) : Type 0 where
  pub fails_below : b.state ≡ closed → b.consecutive_fails < b.cfg.failure_threshold
  pub succs_below : b.state ≡ half_open → b.consecutive_succs < b.cfg.success_threshold
  pub fails_positive : 1 ≤ b.cfg.failure_threshold
  pub succs_positive : 1 ≤ b.cfg.success_threshold

step-IsSound : (b : NodeBreaker) (c : Call) → IsSound b → IsSound (step b c)
unfolding step
step-IsSound b c h = ground arith

run-IsSound : (b : NodeBreaker) (cs : List Call) → IsSound b → IsSound (run b cs)
unfolding run
run-IsSound b [] h = h
run-IsSound b (c ∷ cs) h = run-IsSound (step b c) cs (step-IsSound b c h)

-- After any calls, a breaker made with thresholds of at least 1 is below the failure threshold
-- while closed and below the success threshold while half-open.
pub run-new-IsSound :
    (id : String) (cfg : BreakerConfig) (cs : List Call)
    → 1 ≤ cfg.failure_threshold
    → 1 ≤ cfg.success_threshold
    → IsSound (run (new_node_breaker id cfg) cs)
unfolding new_node_breaker
run-new-IsSound id cfg cs f s = run-IsSound _ cs (ground arith)

abbrev pub is_success : Call → Bool
is_success succeeds = true
is_success _ = false

-- The failures among some calls.
abbrev pub failures : List Call → ℕ
failures [] = 0
failures (asks now ∷ cs) = failures cs
failures (succeeds ∷ cs) = failures cs
failures (fails now ∷ cs) = suc (failures cs)
