-- ===== src/Scheduler/Classifier/Needs.antt =====
-- What every classified task asks for.
use open_fabric.Common.{
  ◌≡◌, true, none, some, String, Dict, lookup, string_eq, [], arith, ◌↔◌, inl, inr, Bool-cases,
  Option-cases, ◌≢◌,
}
use open_fabric.Common.Int.{ℤ, pos, negsuc, wrap64, ◌*ℤ◌, leb_ℤ, ◌≤ℤ◌}
use open_fabric.Scheduler.Classifier.{
  Text, class_shell, class_llm, class_gpu, classify, parse_mb, estimate_llm_ram, apply_hints,
  hint_priority, hint_ram, hint_node,
}

-- The hints change nothing for a command that is recognised: one whose class is not the default.
pub hints_only_shell :
    (x : Text) (cmd : String) (hints : Dict String String)
    → (classify x cmd hints).class ≢ class_shell
    → classify x cmd hints ≡ classify x cmd []
unfolding classify apply_hints hint_priority hint_ram hint_node
hints_only_shell x cmd hints h = ground arith

megabytes-positive :
    (v : ℤ)
    → pos 1 ≤ℤ v
    → v ≤ℤ pos 8796093022207
    → pos 1 ≤ℤ wrap64 (wrap64 (v *ℤ pos 1024) *ℤ pos 1024)
unfolding wrap64 ◌*ℤ◌
megabytes-positive (pos n) lo hi = ground arith
megabytes-positive (negsuc n) lo hi = ground arith

parse_mb-positive :
    (x : Text) (s : String)
    → ((v : ℤ) → x.parse_int (x.trim_space s) ≡ some v → v ≤ℤ pos 8796093022207)
    → pos 1 ≤ℤ parse_mb x s
unfolding parse_mb
parse_mb-positive x s h = elim (Option-cases (x.parse_int (x.trim_space s))) [
  | inl e ↦ rw (e, parse_mb) (omega arith)
  | inr (v, e) ↦
      rw (e, parse_mb)
        (elim (Bool-cases (leb_ℤ v (pos 0))) [
          | inl t ↦ rw t (omega arith)
          | inr f ↦ rw f (megabytes-positive v (ground arith) (h v e))
        ])
]

estimate_llm_ram-positive : (x : Text) (cmd : String) → pos 1 ≤ℤ estimate_llm_ram x cmd
unfolding estimate_llm_ram
estimate_llm_ram-positive x cmd = ground arith

-- Every task asks for some memory, unless the hint min_ram_mb is a number of 2 ^ 43 or more.
pub classify-positive_ram :
    (x : Text) (cmd : String) (hints : Dict String String)
    → ((s : String) (v : ℤ)
        → lookup "min_ram_mb" hints ≡ some s
        → x.parse_int (x.trim_space s) ≡ some v
        → v ≤ℤ pos 8796093022207)
    → pos 1 ≤ℤ (classify x cmd hints).min_ram_bytes
unfolding classify apply_hints hint_priority hint_ram hint_node
classify-positive_ram x cmd hints h = elim (Option-cases (lookup "min_ram_mb" hints)) [
  | inl e ↦ ground (arith, estimate_llm_ram-positive x cmd)
  | inr (s, e) ↦
      let some_ram = parse_mb-positive x s (λ v p. h s v e p) in
      ground (arith, estimate_llm_ram-positive x cmd)
]

-- A GPU is required by the tasks of the class gpu alone and preferred by those of the class llm alone, and nothing but a hint pins a task to a node.
pub classify-gpu :
    (x : Text) (cmd : String) (hints : Dict String String)
    → let r = classify x cmd hints in
      ((r.requires_gpu ≡ true) ↔ (r.class ≡ class_gpu))
      × ((r.prefers_gpu ≡ true) ↔ (r.class ≡ class_llm))
      × (r.allowed_nodes ≢ [] → (lookup "node" hints ≢ none) × (r.class ≡ class_shell))
unfolding classify apply_hints hint_priority hint_ram hint_node
classify-gpu x cmd hints = ground arith
