-- ===== src/Sandbox/Env.antt =====
-- internal/scheduler/sandbox.go: ValidateEnv.
use open_fabric.Common.{
  ℕ, Bool, false, ◌||◌, if◌then◌else◌, eqb, List, [], ◌∷◌, Option, none, some, codes, map,
}
use open_fabric.Common.Text.{Text}
use open_fabric.Sandbox.Segments.{is_listed}

pub data EnvRejection : Type 0 where
  bad_format illegal_key dangerous_key : Text → EnvRejection

abbrev pub dangerous_env_vars : List Text
dangerous_env_vars = map codes (
    "LD_PRELOAD" ∷ "LD_LIBRARY_PATH" ∷ "LD_AUDIT" ∷ "LD_DEBUG" ∷ "LD_ORIGIN_PATH"
    ∷ "DYLD_INSERT_LIBRARIES" ∷ "DYLD_LIBRARY_PATH" ∷ "IFS" ∷ "BASH_ENV" ∷ "ENV" ∷ "CDPATH"
    ∷ "SHELLOPTS" ∷ "BASHOPTS" ∷ "PS4" ∷ "PYTHONSTARTUP" ∷ "PYTHONPATH" ∷ "PYTHONHOME" ∷ "NODE_PATH"
    ∷ "NODE_OPTIONS" ∷ "GOROOT" ∷ "GOPATH" ∷ "PATH" ∷ [])

-- The text before the first `=`, none where there is no `=`.
unfoldable pub key_of : Text → Option Text
key_of [] = none
key_of (c ∷ s) =
    let rest = key_of s in
    if eqb c 61 then some [] else elim rest [ none ↦ none | some k ↦ some (c ∷ k) ]

-- The key and the tests of it: null, `=`, `;`, `|`, `&`, a backquote and `$`.
abbrev pub is_illegal_in_key : ℕ → Bool
is_illegal_in_key c =
    eqb c 0 || eqb c 61 || eqb c 59 || eqb c 124 || eqb c 38 || eqb c 96 || eqb c 36

unfoldable pub contains_any_rune : (ℕ → Bool) → Text → Bool
contains_any_rune test [] = false
contains_any_rune test (c ∷ s) = test c || contains_any_rune test s

unfoldable pub check_key : Text → Option EnvRejection
check_key key =
    if contains_any_rune is_illegal_in_key key
    then some (illegal_key key)
    else if is_listed key dangerous_env_vars
    then some (dangerous_key key)
    else none

unfoldable pub check_entry : Text → Option EnvRejection
check_entry entry = elim (key_of entry) [
  | none ↦ some (bad_format entry)
  | some key ↦ elim key [ [] ↦ some (bad_format entry) | c ∷ rest ↦ check_key (c ∷ rest) ]
]

unfoldable pub check_entries : List Text → Option EnvRejection
check_entries [] = none
check_entries (entry ∷ env) = elim (check_entry entry) [
  | some e ↦ some e
  | none ↦ check_entries env
]

unfoldable pub validate_env : List Text → Bool → Option EnvRejection
validate_env env sandbox_mode = if sandbox_mode then check_entries env else none
