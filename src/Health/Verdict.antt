-- ===== src/Health/Verdict.antt =====
-- The verdict is the worst status, in whatever order the results are walked.
use open_fabric.Common.{ℕ, ◌≤◌, ◌<◌, ◌≡◌, String, [], ◌∷◌, Dict, max, arith, ◌∙◌}
use open_fabric.Health.{
  Status, healthy, degraded, unhealthy, unknown, CheckResult, Registry, aggregate, aggregate_from,
}

-- How bad a status is.
abbrev pub severity : Status → ℕ
severity healthy = 0
severity unknown = 1
severity degraded = 2
severity unhealthy = 3

abbrev pub worst : Dict String CheckResult → ℕ
worst [] = 0
worst ((_, r) ∷ rs) = max (severity r.status) (worst rs)

worst_bound : (rs : Dict String CheckResult) → worst rs ≤ 3
worst_bound [] = omega arith
worst_bound ((_, r) ∷ rs) = ground (arith, worst_bound rs)

aggregate_from-worst :
    (overall : Status) (rs : Dict String CheckResult)
    → severity overall < 3
    → severity (aggregate_from overall rs) ≡ max (severity overall) (worst rs)
unfolding aggregate_from
aggregate_from-worst overall [] h = ground arith
aggregate_from-worst overall ((_, r) ∷ rs) h = ground (
  arith,
  aggregate_from-worst overall rs h,
  aggregate_from-worst degraded rs (omega arith),
  aggregate_from-worst unknown rs (omega arith),
  worst_bound rs,
)

-- The verdict of `Aggregate` is as bad as the worst stored result and no worse, healthy when there is
-- none: unhealthy before degraded, degraded before unknown, unknown before healthy.
pub aggregate-worst : (r : Registry) → severity (aggregate r) ≡ worst r.results
unfolding aggregate
aggregate-worst r = aggregate_from-worst healthy r.results (omega arith) ∙ ground arith
