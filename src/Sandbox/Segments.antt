-- ===== src/Sandbox/Segments.antt =====
-- internal/scheduler/sandbox.go: gate 10 of ValidateCommand, the words of each segment of a command.
-- Paths are those of Unix.
use open_fabric.Common.{
  ℕ, zero, suc, Bool, true, false, not, ◌&&◌, ◌||◌, if◌then◌else◌, eqb, leb, ltb, List, [], ◌∷◌,
  ◌++◌, Option, none, some, length, codes, drop, map,
}
use open_fabric.Common.Text.{
  Text, has_prefix, contains, contains_rune, is_space, is_blank, fields, fields_func, trim,
  same_text,
}

pub data Rejection : Type 0 where
  empty_command null_byte redirection subshell process_substitution : Rejection
  control_character bidi_character private_use : ℕ → Rejection
  too_many_arguments : ℕ → Rejection
  not_allowed traversal absolute_path : Text → Rejection

-- filepath.Base
unfoldable pub last_element : Text → Text → Text
last_element word [] = word
last_element word (c ∷ s) = if eqb c 47 then last_element [] s else last_element (word ++ c ∷ []) s

unfoldable pub base_name : Text → Text
base_name path = elim path [
  | [] ↦ codes "."
  | c ∷ rest ↦ elim (trim_slashes (c ∷ rest)) [ [] ↦ codes "/" | d ∷ t ↦ last_element [] (d ∷ t) ]
]
  where
    trim_slashes : Text → Text
    trim_slashes = open_fabric.Common.Text.trim_right (λ x. eqb x 47)

abbrev pub is_quote : ℕ → Bool
is_quote c = eqb c 34 || eqb c 39

abbrev pub allowed_absolute_prefixes : List Text
allowed_absolute_prefixes =
    codes "/usr/bin/"
    ∷ codes "/usr/local/bin/"
    ∷ codes "/bin/"
    ∷ codes "/tmp/openfabric-tasks/"
    ∷ codes "/dev/null"
    ∷ codes "/dev/urandom"
    ∷ codes "/dev/random"
    ∷ []

unfoldable pub has_some_prefix : Text → List Text → Bool
has_some_prefix path [] = false
has_some_prefix path (p ∷ ps) = has_prefix path p || has_some_prefix path ps

unfoldable pub is_allowed_absolute_path : Text → Bool
is_allowed_absolute_path path = has_some_prefix path allowed_absolute_prefixes

-- The second sequence has two backslashes: the source writes it in a raw string.
unfoldable pub check_arg_for_traversal : Text → Option Rejection
check_arg_for_traversal arg =
    let cleaned = trim is_quote arg in
    if contains cleaned (codes "../") || contains cleaned (46 ∷ 46 ∷ 92 ∷ 92 ∷ [])
    then some (traversal arg)
    else if same_text cleaned (codes "..")
    then some (traversal arg)
    else if has_prefix cleaned (codes "/") && not (is_allowed_absolute_path cleaned)
    then some (absolute_path cleaned)
    else none

unfoldable pub check_args : List Text → Option Rejection
check_args [] = none
check_args (arg ∷ args) = elim (check_arg_for_traversal arg) [
  | some e ↦ some e
  | none ↦ check_args args
]

unfoldable pub is_listed : Text → List Text → Bool
is_listed name [] = false
is_listed name (a ∷ allowlist) = same_text name a || is_listed name allowlist

-- Gate 10 for the words of one segment.
unfoldable pub check_words : List Text → List Text → Option Rejection
check_words allowlist [] = none
check_words allowlist (binary ∷ args) =
    if is_listed (base_name binary) allowlist
    then check_args args
    else some (not_allowed (base_name binary))

unfoldable pub check_segments : List Text → List Text → Option Rejection
check_segments allowlist [] = none
check_segments allowlist (segment ∷ segments) = elim (check_words allowlist (fields segment)) [
  | some e ↦ some e
  | none ↦ check_segments allowlist segments
]

abbrev pub is_separator : ℕ → Bool
is_separator r = eqb r 59 || eqb r 38 || eqb r 124 || eqb r 10

unfoldable pub segments_of : Text → List Text
segments_of command = fields_func is_separator command

-- Gate 10.
unfoldable pub check_all_segments : List Text → Text → Option Rejection
check_all_segments allowlist command = elim (segments_of command) [
  | [] ↦ some empty_command
  | s ∷ segments ↦ check_segments allowlist (s ∷ segments)
]
