-- ===== src/Scheduler/Classifier/Tests.antt =====
-- A task with hints, and a hint whose product overflows.
use open_fabric.Common.{
  ◌≡◌, ◌≢◌, ◌↔◌, refl, true, false, if◌then◌else◌, [], ◌∷◌, none, some, String, Dict, string_eq,
  ◌==◌, lookup, arith,
}
use open_fabric.Common.Int.{pos, wrap64, ◌*ℤ◌, ◌≤ℤ◌}
use open_fabric.Scheduler.Classifier.{
  Text, class_llm, class_gpu, class_shell, contains_any, is_llm_command, estimate_llm_ram, parse_mb,
  classify,
}
use open_fabric.Scheduler.Classifier.Needs.{hints_only_shell, classify-positive_ram, classify-gpu}

-- A text contains only itself; "huge" is the number 2 ^ 44, every other word 512.
abbrev sample_text : Text
sample_text = record {
  contains = λ s p. s == p;
  to_lower = λ s. s;
  trim_space = λ s. s;
  parse_int = λ s. if s == "huge" then some (pos 17592186044416) else some (pos 512);
  match_io = λ s. false;
}

abbrev small_text : Text
small_text = record sample_text { parse_int = λ s. some (pos 512) }

abbrev no_hints : Dict String String
no_hints = []

huge_hint : parse_mb sample_text "huge" ≡ pos 0
unfolding parse_mb wrap64 ◌*ℤ◌
huge_hint = refl

hints_only_shell_example :
    classify sample_text "gemma" (("node", "n1") ∷ []) ≡ classify sample_text "gemma" []
unfolding classify is_llm_command contains_any estimate_llm_ram
hints_only_shell_example =
    hints_only_shell sample_text "gemma" (("node", "n1") ∷ []) (λ e. ground arith)

classify-positive_ram_example :
    pos 1 ≤ℤ (classify small_text "date" (("min_ram_mb", "512") ∷ [])).min_ram_bytes
classify-positive_ram_example =
    classify-positive_ram small_text "date" (("min_ram_mb", "512") ∷ []) (λ s v e p. ground arith)

classify-gpu_example :
    let r = classify sample_text "sdxl" no_hints in
    ((r.requires_gpu ≡ true) ↔ (r.class ≡ class_gpu))
    × ((r.prefers_gpu ≡ true) ↔ (r.class ≡ class_llm))
    × (r.allowed_nodes ≢ [] → (lookup "node" no_hints ≢ none) × (r.class ≡ class_shell))
classify-gpu_example = classify-gpu sample_text "sdxl" no_hints
