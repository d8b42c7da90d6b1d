-- ===== src/Policy/Deciding.antt =====
-- Which policy decides on a task.
use open_fabric.Common.{◌≡◌, String, true, some, List, ◌∷◌, ◌++◌, ◌⊎◌, All}
use open_fabric.Policy.{
  Floats, Policy, Telemetry, unknown_action, evaluate_rule, Decision, let_through, reason_of, act,
}

module _ (fl : Floats) (t : Telemetry fl) (task_class : String) where
  -- The policy is in force for the task: enabled, with the task's class as target or no class or "all",
  -- and every one of its rules holds of the telemetry.
  pub record Applies (p : Policy fl) : Type 0 where
    pub on : p.enabled ≡ true
    pub target : (p.target_class ≡ "") ⊎ ((p.target_class ≡ "all") ⊎ (p.target_class ≡ task_class))
    pub holds : All (λ r. evaluate_rule fl r t ≡ true) p.rules

  -- A policy that does not hold the task back: it does not apply, or has no known action.
  abbrev pub Passes : Policy fl → Type 0
  Passes p = (Applies p → ⊥) ⊎ (p.action ≡ unknown_action)

  pub data Decided (violation : String → String) (ps : List (Policy fl)) (d : Decision)
      : Type 0 where
    let_in : All Passes ps → d ≡ let_through → Decided violation ps d
    held :
        (before : List (Policy fl)) (p : Policy fl) (after : List (Policy fl))
        → ps ≡ before ++ p ∷ after
        → All Passes before
        → Applies p
        → act p.action (reason_of fl violation p) ≡ some d
        → Decided violation ps d
