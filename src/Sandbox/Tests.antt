-- ===== src/Sandbox/Tests.antt =====
-- Commands and environments that pass, and some that a shell reads as what the gate rejects.
use open_fabric.Common.{◌≡◌, ◌≢◌, refl, true, false, List, [], ◌∷◌, ◌++◌, none, some, codes, All}
use open_fabric.Common.Text.{
  Text, has_prefix, contains, contains_rune, is_blank, fields, fields_func, fields_from, keep_field,
  trim, trim_left, trim_right, same_text, OccursIn, is_space,
}
use open_fabric.Sandbox.Segments.{
  traversal, absolute_path, base_name, last_element, check_arg_for_traversal,
  is_allowed_absolute_path, has_some_prefix, check_args, is_listed, check_words, check_segments,
  segments_of, check_all_segments,
}
use open_fabric.Sandbox.Gates.{
  first_rune, first_bidi, check_operators, before, reject_rune, check_null, check_bidi, check_runes,
  validate_command, parse_wasm_command, wasm_words,
}
use open_fabric.Sandbox.Env.{
  key_of, contains_any_rune, check_key, check_entry, check_entries, validate_env,
}
use open_fabric.Sandbox.Passed.{IsClean, validate_command-IsClean}
use open_fabric.Sandbox.Named.{IsHarmless, validate_env-IsHarmless, parse_wasm_command-plain}

abbrev allowed : List Text
allowed = codes "ls" ∷ codes "cat" ∷ []

-- The first passes. The shell reads \/etc/shadow as /etc/shadow, which is rejected when it is written
-- so; and a binary of any directory passes under a listed name.
gate_runs :
    (validate_command (codes "ls -l | cat") allowed true ≡ none)
    × (validate_command (codes "cat " ++ 92 ∷ codes "/etc/shadow") allowed true ≡ none)
    × (validate_command (codes "cat /etc/shadow") allowed true
        ≡ some (absolute_path (codes "/etc/shadow")))
    × (validate_command (codes "../evil/ls") allowed true ≡ none)
unfolding validate_command before check_null check_bidi check_runes reject_rune first_rune
    first_bidi check_operators check_all_segments check_segments check_words check_args
    check_arg_for_traversal is_allowed_absolute_path has_some_prefix segments_of is_listed base_name
    last_element has_prefix contains contains_rune is_blank fields fields_func fields_from
    keep_field trim trim_left trim_right same_text
gate_runs = (refl, refl, refl, refl)

-- One backslash passes, two do not.
backslash_passes :
    (check_arg_for_traversal (46 ∷ 46 ∷ 92 ∷ 120 ∷ []) ≡ none)
    × (check_arg_for_traversal (46 ∷ 46 ∷ 92 ∷ 92 ∷ []) ≡ some (traversal (46 ∷ 46 ∷ 92 ∷ 92 ∷ [])))
unfolding check_arg_for_traversal has_prefix contains trim trim_left trim_right same_text
    is_allowed_absolute_path has_some_prefix
backslash_passes = (refl, refl)

validate_command-IsClean_example : IsClean (codes "ls -l | cat") allowed
unfolding has_prefix
validate_command-IsClean_example =
    validate_command-IsClean (codes "ls -l | cat") allowed refl gate_runs.0

validate_env-IsHarmless_example : All IsHarmless (codes "LANG=C" ∷ codes "MODE=fast=1" ∷ [])
unfolding validate_env check_entries check_entry check_key key_of contains_any_rune is_listed
    same_text
validate_env-IsHarmless_example =
    validate_env-IsHarmless (codes "LANG=C" ∷ codes "MODE=fast=1" ∷ []) refl

parse_wasm_command-plain_example :
    (codes "tool.wasm" ≢ [])
    × (¬ OccursIn (codes "..") (codes "tool.wasm"))
    × (¬ OccursIn (codes "/") (codes "tool.wasm"))
    × (¬ OccursIn (92 ∷ []) (codes "tool.wasm"))
    × All (λ c. is_space c ≡ false) (codes "tool.wasm")
unfolding parse_wasm_command wasm_words has_prefix contains fields fields_func fields_from
    keep_field
parse_wasm_command-plain_example =
    parse_wasm_command-plain (codes "wasm://tool.wasm 3") (codes "tool.wasm") (codes "3" ∷ []) refl
