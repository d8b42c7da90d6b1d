-- ===== src/Breaker/Tests.antt =====
-- Runs of a breaker, and its theorems at concrete inputs.
use open_fabric.Common.{
  ◌++◌, ℕ, ◌*◌, ◌^◌, min, ◌≡◌, refl, String, true, false, List, [], ◌∷◌, length, arith, string_eq,
}
use open_fabric.Common.Int.{pos, wrap64, ◌+ℤ◌, ◌-ℤ◌}
use open_fabric.Breaker.{
  NodeBreaker, closed, opened, half_open, Call, asks, succeeds, fails, default_breaker_config,
  new_node_breaker, allow, record_failure, run,
}
use open_fabric.Breaker.Probe.{probation_answers}
use open_fabric.Breaker.Cooldown.{IsUsable, failed_probes, failed_probes_backoff}
use open_fabric.Breaker.Registry.{get, run_registry, new_breaker_registry}
use open_fabric.Breaker.Registry.Isolation.{calls_of, registry_isolates_nodes}

abbrev outage : List Call
outage = fails 5 ∷ fails 6 ∷ fails 7 ∷ asks 30000000007 ∷ fails 30000000009 ∷ []

abbrev probing : NodeBreaker
probing = record {
  node_id = "n1";
  state = half_open;
  consecutive_fails = 0;
  consecutive_succs = 0;
  opened_at = 7;
  open_duration = pos 60000000000;
  cfg = default_breaker_config;
}

abbrev tripped : NodeBreaker
tripped = record probing { state = opened; open_duration = pos 30000000000 }

abbrev fresh_breaker : NodeBreaker
fresh_breaker = record {
  node_id = "n1";
  state = closed;
  consecutive_fails = 0;
  consecutive_succs = 0;
  opened_at = 0;
  open_duration = pos 30000000000;
  cfg = default_breaker_config;
}

-- Requests come between the failures, and after the last one.
abbrev early : List Call
early = fails 5 ∷ asks 6 ∷ fails 7 ∷ []

-- With one success counted, a request after the cooldown is refused at any later time.
probation_answers_example :
    let (probing, admitted) = allow tripped 30000000007 in
    let later = run probing (asks 30000000008 ∷ succeeds ∷ []) in
    (admitted ≡ true) × (later.state ≡ half_open) × ((allow later 90000000000).1 ≡ false)
unfolding ◌-ℤ◌
probation_answers_example =
    probation_answers tripped 30000000007 (asks 30000000008 ∷ succeeds ∷ []) 90000000000 refl
      (omega arith) (omega arith) (refl, (refl, tt))

default-IsUsable : IsUsable default_breaker_config
default-IsUsable = record {
  first = 30000000000;
  ceiling = 600000000000;
  first_eq = refl;
  ceiling_eq = refl;
  ordered = omega arith;
  small = omega arith;
}

abbrev probes : List (ℕ × ℕ)
probes = (30000000007, 30000000008) ∷ (90000000008, 90000000009) ∷ []

failed_probes_backoff_example :
    ((failed_probes tripped probes).open_duration
      ≡ pos (min (30000000000 * 2 ^ length probes) 600000000000))
    × ((failed_probes tripped probes).state ≡ opened)
unfolding allow record_failure ◌-ℤ◌ ◌+ℤ◌ wrap64
failed_probes_backoff_example =
    failed_probes_backoff probes tripped 30000000000 600000000000 refl refl refl (omega arith)
      (omega arith) (refl, (refl, tt))

abbrev mixed : List (String × Call)
mixed = ("a", fails 1) ∷ ("b", succeeds) ∷ ("a", fails 2) ∷ ("a", fails 3) ∷ []

registry_isolates_nodes_example :
    let (taken, p) = get (run_registry (new_breaker_registry default_breaker_config) mixed) "a" in
    let later = run_registry taken mixed in
    ((get later "a").1 ≡ p)
    × (later.memory p
        ≡ run
            (new_node_breaker "a" default_breaker_config)
            (calls_of "a" mixed ++ calls_of "a" mixed))
registry_isolates_nodes_example = registry_isolates_nodes default_breaker_config "a" mixed mixed
