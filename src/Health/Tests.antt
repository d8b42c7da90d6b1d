-- ===== src/Health/Tests.antt =====
-- The registry at a concrete round.
use open_fabric.Common.{◌≡◌, [], ◌∷◌, string_eq}
use open_fabric.Common.Int.{pos}
use open_fabric.Health.{degraded, Registry, Round, not_run, aggregate}
use open_fabric.Health.Verdict.{severity, worst, aggregate-worst}

abbrev two_checks : Registry
two_checks = record {
  checkers = ("disk", 1) ∷ ("gpu", 2) ∷ [];
  results = ("disk", not_run "disk") ∷ ("gpu", not_run "gpu") ∷ [];
}

abbrev slow_round : Round
slow_round = record {
  answers = λ c. record (not_run "") { status = degraded };
  took = λ n. pos 5;
  done_at = λ n. 100;
}

aggregate-worst_example : severity (aggregate two_checks) ≡ worst two_checks.results
aggregate-worst_example = aggregate-worst two_checks
