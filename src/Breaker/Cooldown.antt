-- ===== src/Breaker/Cooldown.antt =====
-- The exponential backoff of the cooldown.
use open_fabric.Common.{
  ℕ, zero, suc, ◌*◌, ◌^◌, ◌≤◌, ◌<◌, ◌≡◌, refl, List, [], ◌∷◌, arith, min, String, length, true, ap,
  ◌∙◌, Bool-cases, leb, tests, inl, inr, true, ap, ◌∙◌, Bool-cases, leb, tests, inl, inr,
}
use open_fabric.Common.Int.{pos, ◌+ℤ◌, ◌≤ℤ◌, wrap64}
use native.Mathlib.Nat.{pow-suc}
use open_fabric.Breaker.{
  NodeBreaker, BreakerConfig, opened, Call, allow, record_failure, step, run, min_duration,
  new_node_breaker,
}

-- A configuration whose cooldowns are ordered, and whose doubled ceiling is an int64.
pub record IsUsable (cfg : BreakerConfig) : Type 0 where
  pub first : ℕ
  pub ceiling : ℕ
  pub first_eq : cfg.open_duration ≡ pos first
  pub ceiling_eq : cfg.max_open_duration ≡ pos ceiling
  pub ordered : first ≤ ceiling
  pub small : ceiling < 4611686018427387904

-- The cooldown lies between the configured first one and the ceiling.
abbrev pub InRange : NodeBreaker → Type 0
InRange b = (b.cfg.open_duration ≤ℤ b.open_duration) × (b.open_duration ≤ℤ b.cfg.max_open_duration)

double_capped :
    (first ceiling d : ℕ)
    → first ≤ d
    → d ≤ ceiling
    → ceiling < 4611686018427387904
    → min_duration (wrap64 (pos d +ℤ pos d)) (pos ceiling) ≡ pos (min (2 * d) ceiling)
unfolding min_duration wrap64 ◌+ℤ◌
double_capped first ceiling d l h s = ground arith

step-InRange :
    (cfg : BreakerConfig) (b : NodeBreaker) (c : Call)
    → IsUsable cfg
    → b.cfg ≡ cfg
    → InRange b
    → InRange (step b c) × ((step b c).cfg ≡ cfg)
unfolding step min_duration wrap64 ◌+ℤ◌
step-InRange cfg b c u e r = ground arith

run-InRange :
    (cfg : BreakerConfig) (b : NodeBreaker) (cs : List Call)
    → IsUsable cfg
    → b.cfg ≡ cfg
    → InRange b
    → InRange (run b cs)
unfolding run
run-InRange cfg b [] u e r = r
run-InRange cfg b (c ∷ cs) u e r =
    let (r', e') = step-InRange cfg b c u e r in run-InRange cfg (step b c) cs u e' r'

-- With a configured first cooldown that is not negative and at most the ceiling, and a ceiling
-- below 2 ^ 62 nanoseconds: after any calls, the cooldown of a new breaker is at least the first
-- one and at most the ceiling.
pub run-new-InRange :
    (id : String) (cfg : BreakerConfig) (cs : List Call)
    → IsUsable cfg
    → InRange (run (new_node_breaker id cfg) cs)
unfolding new_node_breaker
run-new-InRange id cfg cs u = run-InRange cfg _ cs u refl (ground arith)

-- Probes that fail: for each, the time of the request that is let through and of the failure.
pub failed_probes : NodeBreaker → List (ℕ × ℕ) → NodeBreaker
failed_probes b [] = b
failed_probes b ((asked, failed) ∷ rest) =
    failed_probes (record_failure (allow b asked).0 failed) rest

abbrev pub Admitted : NodeBreaker → List (ℕ × ℕ) → Type 0
Admitted b [] = Unit
Admitted b ((asked, failed) ∷ rest) =
    ((allow b asked).1 ≡ true) × Admitted (record_failure (allow b asked).0 failed) rest

probe_fails :
    (b : NodeBreaker) (d ceiling asked failed : ℕ)
    → b.state ≡ opened
    → b.open_duration ≡ pos d
    → b.cfg.max_open_duration ≡ pos ceiling
    → d ≤ ceiling
    → ceiling < 4611686018427387904
    → (allow b asked).1 ≡ true
    → let c = record_failure (allow b asked).0 failed in
      (c.state ≡ opened)
      × (c.open_duration ≡ pos (min (2 * d) ceiling))
      × (c.cfg.max_open_duration ≡ pos ceiling)
unfolding allow record_failure
probe_fails b d ceiling asked failed o e m le s a = ground (arith, double_capped 0 ceiling d)

capped_twice :
    (d ceiling p : ℕ) → 1 ≤ p → min (min (2 * d) ceiling * p) ceiling ≡ min (d * (2 * p)) ceiling
capped_twice d ceiling zero h = absurd (omega arith)
capped_twice d ceiling (suc q) h = elim (Bool-cases (leb (2 * d) ceiling)) [
  | inl fits ↦ let e : min (2 * d) ceiling ≡ 2 * d = omega tests in rw e (omega arith)
  | inr over ↦ let e : min (2 * d) ceiling ≡ ceiling = ground arith in rw e (ground arith)
]

pow_pos : (n : ℕ) → 1 ≤ 2 ^ n
pow_pos zero = omega arith
pow_pos (suc n) = omega (arith, pow_pos n, pow-suc 2 n)

-- An open breaker with a cooldown `d`, at most its ceiling, which is below 2 ^ 62 nanoseconds, has,
-- after `k` probes that were admitted and failed, the cooldown `d * 2 ^ k` capped at the ceiling,
-- and is open again.
pub failed_probes_backoff :
    (ps : List (ℕ × ℕ)) (b : NodeBreaker) (d ceiling : ℕ)
    → b.state ≡ opened
    → b.open_duration ≡ pos d
    → b.cfg.max_open_duration ≡ pos ceiling
    → d ≤ ceiling
    → ceiling < 4611686018427387904
    → Admitted b ps
    → ((failed_probes b ps).open_duration ≡ pos (min (d * 2 ^ length ps) ceiling))
      × ((failed_probes b ps).state ≡ opened)
unfolding failed_probes
failed_probes_backoff [] b d ceiling o e m le s a = (rw e (ap pos (omega arith)), o)
failed_probes_backoff ((asked, failed) ∷ rest) b d ceiling o e m le s a =
    let c = record_failure (allow b asked).0 failed in
    let (still, grown, same) = probe_fails b d ceiling asked failed o e m le s a.0 in
    let (cooldown, open_still) =
      failed_probes_backoff rest c (min (2 * d) ceiling) ceiling still grown same (omega arith) s
        a.1 in
    let twice = capped_twice d ceiling (2 ^ length rest) (pow_pos (length rest)) in
    (
      cooldown
          ∙ ap pos (twice ∙ ap (λ x. min (d * x) ceiling) (omega (arith, pow-suc 2 (length rest)))),
      open_still,
    )
