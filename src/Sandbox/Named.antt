-- ===== src/Sandbox/Named.antt =====
-- What an environment and the name of a WASM file have when they are let through.
use open_fabric.Common.{
  ℕ, ◌≡◌, ◌≢◌, subst, Bool, true, false, List, [], ◌∷◌, ◌++◌, none, some, length, drop, codes, All,
  arith, inl, inr, eqb, Bool-cases, Option-cases, List-cases,
}
use open_fabric.Common.Text.{
  Text, contains, fields, OccursIn, contains-absent, is_space, IsField, fields_func-IsField,
}
use open_fabric.Sandbox.Segments.{is_listed}
use open_fabric.Sandbox.Gates.{wasm_prefix, parse_wasm_command, wasm_words, wasm_file}
use open_fabric.Sandbox.Env.{
  key_of, is_illegal_in_key, contains_any_rune, check_key, check_entry, check_entries, validate_env,
  dangerous_env_vars,
}

-- An assignment of a variable with a harmless name.
pub record IsHarmless (entry : Text) : Type 0 where
  pub key : Text
  pub value : Text
  pub splits : entry ≡ key ++ codes "=" ++ value
  pub named : key ≢ []
  pub legal : All (λ c. is_illegal_in_key c ≡ false) key
  pub unlisted : is_listed key dangerous_env_vars ≡ false

key_of-splits :
    (entry key : Text)
    → key_of entry ≡ some key
    → (value : Text) × (entry ≡ key ++ codes "=" ++ value)
unfolding key_of
key_of-splits [] key h = absurd (ground arith)
key_of-splits (c ∷ s) key h = elim (Bool-cases (eqb c 61)) [
  | inl e ↦ (s, ground arith)
  | inr e ↦ elim (Option-cases (key_of s)) [
    | inl q ↦ absurd (ground arith)
    | inr (k, q) ↦ let (value, r) = key_of-splits s k q in (value, ground arith)
  ]
]

contains_any_rune-absent :
    (test : ℕ → Bool) (s : Text) → contains_any_rune test s ≡ false → All (λ c. test c ≡ false) s
unfolding contains_any_rune
contains_any_rune-absent test [] h = tt
contains_any_rune-absent test (c ∷ s) h =
    (ground arith, contains_any_rune-absent test s (ground arith))

check_key-passes :
    (key : Text)
    → check_key key ≡ none
    → (contains_any_rune is_illegal_in_key key ≡ false) × (is_listed key dangerous_env_vars ≡ false)
unfolding check_key
check_key-passes key h = ground arith

check_entry-key :
    (entry : Text)
    → check_entry entry ≡ none
    → (key : Text) × (key_of entry ≡ some key) × (key ≢ []) × (check_key key ≡ none)
unfolding check_entry
check_entry-key entry h = elim (Option-cases (key_of entry)) [
  | inl e ↦ absurd (ground arith)
  | inr (key, e) ↦ elim (List-cases key) [
    | inl q ↦ absurd (ground arith)
    | inr (c, rest, q) ↦ (key, e, (λ n. ground arith), ground arith)
  ]
]

check_entry-IsHarmless : (entry : Text) → check_entry entry ≡ none → IsHarmless entry
check_entry-IsHarmless entry h =
    let (key, e, named, checked) = check_entry-key entry h in
    let (value, splits) = key_of-splits entry key e in
    let (legal, unlisted) = check_key-passes key checked in
    record {
      key = key;
      value = value;
      splits = splits;
      named = named;
      legal = contains_any_rune-absent is_illegal_in_key key legal;
      unlisted = unlisted;
    }

-- In sandbox mode an environment passes only if each entry assigns to a variable whose name is not empty, has none of the illegal characters and is not on the list of the dangerous ones.
pub validate_env-IsHarmless : (env : List Text) → validate_env env true ≡ none → All IsHarmless env
unfolding validate_env check_entries
validate_env-IsHarmless [] h = tt
validate_env-IsHarmless (entry ∷ env) h = elim (Option-cases (check_entry entry)) [
  | inl e ↦ (check_entry-IsHarmless entry e, validate_env-IsHarmless env (ground arith))
  | inr (r, e) ↦ absurd (ground arith)
]

wasm_words-file :
    (words args : List Text) (fname : Text)
    → wasm_words words ≡ wasm_file fname args
    → (words ≡ fname ∷ args)
      × (contains fname (codes "..") ≡ false)
      × (contains fname (codes "/") ≡ false)
      × (contains fname (92 ∷ []) ≡ false)
unfolding wasm_words
wasm_words-file [] args fname h = absurd (ground arith)
wasm_words-file (w ∷ words) args fname h = ground arith

-- A WASM command names a file with at least one character and no space, without .. and without a slash or a backslash.
pub parse_wasm_command-plain :
    (command fname : Text) (args : List Text)
    → parse_wasm_command command ≡ wasm_file fname args
    → (fname ≢ [])
      × (¬ OccursIn (codes "..") fname)
      × (¬ OccursIn (codes "/") fname)
      × (¬ OccursIn (92 ∷ []) fname)
      × All (λ c. is_space c ≡ false) fname
unfolding parse_wasm_command fields
parse_wasm_command-plain command fname args h =
    let (w, dots, slash, backslash) =
      wasm_words-file (fields (drop (length wasm_prefix) command)) args fname (ground arith) in
    let whole = fields_func-IsField is_space (drop (length wasm_prefix) command) in
    let first : All (IsField is_space) (fname ∷ args) = subst (All (IsField is_space)) w whole in
    (
      first.0.0,
      contains-absent fname _ dots,
      contains-absent fname _ slash,
      contains-absent fname _ backslash,
      first.0.1,
    )
