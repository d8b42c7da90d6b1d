-- ===== src/Policy.antt =====
-- internal/policy/engine.go: the policies that hold tasks back. Floating point is an argument.
pub mod Deciding
mod Tests
use open_fabric.Common.{
  ℕ, String, Bool, true, false, ◌&&◌, ◌||◌, not, ltb, if◌then◌else◌, ◌==◌, Option, none, some, List,
  [], ◌∷◌, ◌++◌, string_eq,
}
use open_fabric.Common.Int.{ℤ}

pub data Operator : Type 0 where
  gt lt gte lte unknown_operator : Operator

pub data MetricType : Type 0 where
  cpu_percent ram_used_percent gpu_used_percent tasks_running throughput tokens_sec unknown_metric :
      MetricType

pub data ScopeType : Type 0 where
  cluster node unknown_scope : ScopeType

pub data ActionType : Type 0 where
  block backpressure unknown_action : ActionType

-- float64: the numbers, their order, and the conversions and the percentage that the engine computes.
pub record Floats : Type 1 where
  pub F : Type 0
  pub lt_float : F → F → Bool
  pub le_float : F → F → Bool
  pub of_int : ℤ → F
  pub percentage : ℕ → ℕ → F

-- What `Evaluate` returns.
pub record Decision : Type 0 where
  pub accepted : Bool
  pub slowed : Bool
  pub msg : String

abbrev pub let_through : Decision
let_through = record { accepted = true; slowed = false; msg = "" }

abbrev pub act : ActionType → String → Option Decision
act block reason = some (record { accepted = false; slowed = false; msg = reason })
act backpressure reason = some (record { accepted = true; slowed = true; msg = reason })
act unknown_action reason = none

module _ (fl : Floats) where
  pub record Rule : Type 0 where
    pub metric : MetricType
    pub scope : ScopeType
    pub operator : Operator
    pub value : fl.F

  pub record Policy : Type 0 where
    pub id : String
    pub name : String
    pub enabled : Bool
    pub rules : List Rule
    pub action : ActionType
    pub target_class : String
    pub message : String

  -- The fields that the engine reads of `ClusterSnapshot`, and of `NodeTelemetry`, which has no rates.
  pub record NodeReadings : Type 0 where
    pub cpu : fl.F
    pub ram_used : ℕ
    pub ram_total : ℕ
    pub gpu_used : ℕ
    pub gpu_total : ℕ
    pub running : ℤ

  pub record ClusterReadings : Type 0 where
    pub pooled : NodeReadings
    pub tasks_per_second : fl.F
    pub tokens_per_second : fl.F

  -- What the provider answers: the last snapshot, or the zero one, and the local readings.
  pub record Telemetry : Type 0 where
    pub snap : ClusterReadings
    pub local : NodeReadings

  pub record Engine : Type 0 where
    pub policies : List Policy
    pub provider : Option Telemetry

  unfoldable pub set_policies : Engine → List Policy → Engine
  set_policies e policies = record e { policies = policies }

  percent_of : ℕ → ℕ → Option fl.F
  percent_of used total = if ltb 0 total then some (fl.percentage used total) else none

  node_metric : MetricType → NodeReadings → Option fl.F
  unfolding percent_of
  node_metric cpu_percent t = some t.cpu
  node_metric ram_used_percent t = percent_of t.ram_used t.ram_total
  node_metric gpu_used_percent t = percent_of t.gpu_used t.gpu_total
  node_metric tasks_running t = some (fl.of_int t.running)
  node_metric _ t = none

  cluster_metric : MetricType → ClusterReadings → Option fl.F
  unfolding node_metric
  cluster_metric throughput t = some t.tasks_per_second
  cluster_metric tokens_sec t = some t.tokens_per_second
  cluster_metric metric t = node_metric metric t.pooled

  -- The value that a rule looks at, if the telemetry has it.
  unfoldable pub rule_metric : Rule → Telemetry → Option fl.F
  unfolding node_metric cluster_metric
  rule_metric r t = elim r.scope [
    | cluster ↦ cluster_metric r.metric t.snap
    | node ↦ node_metric r.metric t.local
    | unknown_scope ↦ none
  ]

  abbrev pub compare_values : Operator → fl.F → fl.F → Bool
  compare_values gt val limit = fl.lt_float limit val
  compare_values lt val limit = fl.lt_float val limit
  compare_values gte val limit = fl.le_float limit val
  compare_values lte val limit = fl.le_float val limit
  compare_values unknown_operator val limit = false

  -- `evaluateRule`.
  unfoldable pub evaluate_rule : Rule → Telemetry → Bool
  unfolding rule_metric
  evaluate_rule r t = elim (rule_metric r t) [
    | none ↦ false
    | some val ↦ compare_values r.operator val r.value
  ]

  pub all_rules : List Rule → Telemetry → Bool
  all_rules [] t = true
  all_rules (r ∷ rs) t = evaluate_rule r t && all_rules rs t

  -- `reason`, with `Sprintf` of the policy's name.
  unfoldable pub reason_of : (String → String) → Policy → String
  reason_of violation p = if p.message == "" then violation p.name else p.message

  -- The guards of the loop's body: enabled, the class is a target, and every rule holds.
  unfoldable pub matches : Policy → String → Telemetry → Bool
  unfolding all_rules
  matches p task_class t =
      p.enabled
      && (p.target_class == "" || p.target_class == "all" || p.target_class == task_class)
      && all_rules p.rules t

  pub decide : (String → String) → List Policy → String → Telemetry → Decision
  decide violation [] task_class t = let_through
  decide violation (p ∷ ps) task_class t =
      let rest = decide violation ps task_class t in
      if matches p task_class t
      then elim (act p.action (reason_of violation p)) [ none ↦ rest | some d ↦ d ]
      else rest

  -- `Evaluate`.
  unfoldable pub evaluate : (String → String) → Engine → String → Decision
  unfolding decide
  evaluate violation e task_class = elim e.provider [
    | none ↦ let_through
    | some t ↦ decide violation e.policies task_class t
  ]
