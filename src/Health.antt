-- ===== src/Health.antt =====
-- internal/reliability/health/health.go: the registry of health checks and the verdict over them. A
-- checker is a number, and what each returns is an argument; times are in nanoseconds.
pub mod Verdict
pub mod Fresh
mod Tests
use open_fabric.Common.{
  ℕ, String, Bool, true, false, if◌then◌else◌, List, [], ◌∷◌, Dict, insert, string_eq,
}
use open_fabric.Common.Int.{ℤ, pos}

pub data Status : Type 0 where
  healthy degraded unhealthy unknown : Status

pub record CheckResult : Type 0 where
  pub name : String
  pub status : Status
  pub message : String
  pub duration : ℤ
  pub last_check : ℕ
  pub error : String

pub record Registry : Type 0 where
  pub checkers : Dict String ℕ
  pub results : Dict String CheckResult

abbrev pub new_registry : Registry
new_registry = record { checkers = []; results = [] }

pub not_run : String → CheckResult
not_run name = record {
  name = name;
  status = unknown;
  message = "";
  duration = pos 0;
  last_check = 0;
  error = "";
}

-- `Register`.
unfoldable pub register : Registry → String → ℕ → Registry
unfolding not_run
register r name checker = record {
  checkers = insert name checker r.checkers;
  results = insert name (not_run name) r.results;
}

-- What the checks of one round do: the answer of each checker, and for each name how long it took and
-- when it was done.
pub record Round : Type 0 where
  pub answers : ℕ → CheckResult
  pub took : String → ℤ
  pub done_at : String → ℕ

pub check_one : Round → String → ℕ → CheckResult
check_one round name checker = record (round.answers checker) {
  duration = round.took name;
  last_check = round.done_at name;
}

pub check_all : Round → Dict String ℕ → Dict String CheckResult
check_all round [] = []
check_all round ((name, checker) ∷ rest) =
    (name, check_one round name checker) ∷ check_all round rest

pub store_all : Dict String CheckResult → Dict String CheckResult → Dict String CheckResult
store_all [] stored = stored
store_all ((name, result) ∷ rest) stored = store_all rest (insert name result stored)

unfoldable pub register_all : Registry → List (String × ℕ) → Registry
register_all r [] = r
register_all r ((name, checker) ∷ rest) = register_all (register r name checker) rest

-- `RunAll`: the checks run without the lock; `meanwhile` are the registrations in that time.
unfoldable pub run_all : Registry → Round → List (String × ℕ) → Registry × Dict String CheckResult
unfolding check_all store_all
run_all r round meanwhile =
    let found = check_all round r.checkers in
    let later = register_all r meanwhile in
    (record later { results = store_all found later.results }, found)

abbrev is_healthy : Status → Bool
is_healthy healthy = true
is_healthy _ = false

-- The loop of `Aggregate` with the status so far.
pub aggregate_from : Status → Dict String CheckResult → Status
aggregate_from overall [] = overall
aggregate_from overall ((_, result) ∷ rest) = elim result.status [
  | healthy ↦ aggregate_from overall rest
  | degraded ↦ aggregate_from degraded rest
  | unhealthy ↦ unhealthy
  | unknown ↦ aggregate_from (if is_healthy overall then unknown else overall) rest
]

-- `Aggregate`, without the copy of the results.
unfoldable pub aggregate : Registry → Status
unfolding aggregate_from
aggregate r = aggregate_from healthy r.results
