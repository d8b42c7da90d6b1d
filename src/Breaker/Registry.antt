-- ===== src/Breaker/Registry.antt =====
-- `BreakerRegistry`: breakers made on first access. The registry holds pointers: places in `memory`, of
-- which those below `next` are in use. A method changes the breaker at its place.
pub mod Isolation
use open_fabric.Common.{
  ℕ, suc, String, eqb, if◌then◌else◌, List, [], ◌∷◌, map, Option, none, some, Dict, lookup, insert,
  string_eq,
}
use open_fabric.Breaker.{NodeBreaker, BreakerConfig, BreakerState, Call, new_node_breaker, step}

pub record BreakerRegistry : Type 0 where
  pub breakers : Dict String ℕ
  pub memory : ℕ → NodeBreaker
  pub next : ℕ
  pub cfg : BreakerConfig

-- What an unused place holds is never read.
unfoldable pub new_breaker_registry : BreakerConfig → BreakerRegistry
new_breaker_registry cfg = record {
  breakers = [];
  memory = λ p. new_node_breaker "" cfg;
  next = 0;
  cfg = cfg;
}

unfoldable pub write : (ℕ → NodeBreaker) → ℕ → NodeBreaker → ℕ → NodeBreaker
write memory place b p = if eqb p place then b else memory p

unfoldable pub get_found : Option ℕ → BreakerRegistry → String → BreakerRegistry × ℕ
get_found (some p) r id = (r, p)
get_found none r id = (
  record r {
    breakers = insert id r.next r.breakers;
    memory = write r.memory r.next (new_node_breaker id r.cfg);
    next = suc r.next;
  },
  r.next,
)

-- `Get`: the registry after it, and the pointer it returns.
unfoldable pub get : BreakerRegistry → String → BreakerRegistry × ℕ
get r id = get_found (lookup id r.breakers) r id

-- The breaker behind the pointer that `Get` returns.
unfoldable pub breaker_of : BreakerRegistry → String → NodeBreaker
breaker_of r id = let (r', p) = get r id in r'.memory p

-- A method call on the breaker that `Get` returned.
unfoldable pub on_breaker : BreakerRegistry → String → (NodeBreaker → NodeBreaker) → BreakerRegistry
on_breaker r id method =
    let (r', p) = get r id in record r' { memory = write r'.memory p (method (r'.memory p)) }

-- `States`.
unfoldable pub states : BreakerRegistry → Dict String BreakerState
states r = map (λ e. (e.0, (r.memory e.1).state)) r.breakers

unfoldable pub run_registry : BreakerRegistry → List (String × Call) → BreakerRegistry
run_registry r [] = r
run_registry r ((id, c) ∷ cs) = run_registry (on_breaker r id (λ b. step b c)) cs
