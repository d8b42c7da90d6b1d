-- ===== src/Breaker.antt =====
-- internal/scheduler/circuit_breaker.go: the circuit breaker of one node and the registry of them.
-- A method that mutates the breaker returns the new record; the clock is an argument.
pub mod Trip
pub mod Probe
pub mod Cooldown
pub mod Registry
mod Tests
use open_fabric.Common.{
  ℕ, suc, String, Bool, true, false, ◌&&◌, leb, eqb, if◌then◌else◌, List, [], ◌∷◌,
}
use open_fabric.Common.Int.{ℤ, pos, ◌+ℤ◌, ◌-ℤ◌, wrap64, ltb_ℤ, leb_ℤ}

-- `BreakerClosed`, `BreakerOpen` and `BreakerHalfOpen`.
pub data BreakerState : Type 0 where
  closed opened half_open : BreakerState

-- Durations are int64 nanoseconds. A threshold below 1 acts as 0 does.
pub record BreakerConfig : Type 0 where
  pub failure_threshold : ℕ
  pub success_threshold : ℕ
  pub open_duration : ℤ
  pub max_open_duration : ℤ

abbrev pub default_breaker_config : BreakerConfig
default_breaker_config = record {
  failure_threshold = 3;
  success_threshold = 2;
  open_duration = pos 30000000000;
  max_open_duration = pos 600000000000;
}

pub record NodeBreaker : Type 0 where
  pub node_id : String
  pub state : BreakerState
  pub consecutive_fails : ℕ
  pub consecutive_succs : ℕ
  pub opened_at : ℕ
  pub open_duration : ℤ
  pub cfg : BreakerConfig

unfoldable pub new_node_breaker : String → BreakerConfig → NodeBreaker
new_node_breaker id cfg = record {
  node_id = id;
  state = closed;
  consecutive_fails = 0;
  consecutive_succs = 0;
  opened_at = 0;
  open_duration = cfg.open_duration;
  cfg = cfg;
}

pub min_duration : ℤ → ℤ → ℤ
min_duration a b = if ltb_ℤ a b then a else b

allow_in : BreakerState → NodeBreaker → ℕ → NodeBreaker × Bool
allow_in closed b now = (b, true)
allow_in opened b now =
    if leb_ℤ b.open_duration (pos now -ℤ pos b.opened_at)
    then (record b { state = half_open; consecutive_succs = 0 }, true)
    else (b, false)
allow_in half_open b now = (b, eqb b.consecutive_succs 0)

-- `Allow`.
unfoldable pub allow : NodeBreaker → ℕ → NodeBreaker × Bool
unfolding allow_in
allow b now = allow_in b.state b now

abbrev is_half_open : BreakerState → Bool
is_half_open half_open = true
is_half_open _ = false

-- `RecordSuccess`.
unfoldable pub record_success : NodeBreaker → NodeBreaker
record_success b =
    let c = record b { consecutive_fails = 0; consecutive_succs = suc b.consecutive_succs } in
    if is_half_open c.state && leb c.cfg.success_threshold c.consecutive_succs
    then record c { state = closed; open_duration = c.cfg.open_duration }
    else c

fail_in : BreakerState → NodeBreaker → ℕ → NodeBreaker
unfolding min_duration
fail_in closed b now =
    if leb b.cfg.failure_threshold b.consecutive_fails
    then record b { state = opened; opened_at = now }
    else b
fail_in opened b now = b
fail_in half_open b now = record b {
  state = opened;
  opened_at = now;
  open_duration =
      min_duration (wrap64 (b.open_duration +ℤ b.open_duration)) b.cfg.max_open_duration;
  consecutive_fails = 0;
}

-- `RecordFailure`.
unfoldable pub record_failure : NodeBreaker → ℕ → NodeBreaker
unfolding fail_in
record_failure b now =
    fail_in b.state
      (record b { consecutive_succs = 0; consecutive_fails = suc b.consecutive_fails }) now

-- What other code does to a breaker, each call with its clock reading.
pub data Call : Type 0 where
  asks : ℕ → Call
  succeeds : Call
  fails : ℕ → Call

unfoldable pub step : NodeBreaker → Call → NodeBreaker
unfolding allow record_success record_failure
step b (asks now) = (allow b now).0
step b succeeds = record_success b
step b (fails now) = record_failure b now

unfoldable pub run : NodeBreaker → List Call → NodeBreaker
run b [] = b
run b (c ∷ cs) = run (step b c) cs
