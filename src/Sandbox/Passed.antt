-- ===== src/Sandbox/Passed.antt =====
-- What a command has, and has not, when the gate lets it pass.
use open_fabric.Common.{
  ℕ, ◌≤◌, ◌≡◌, ◌≢◌, refl, Bool, true, false, List, [], ◌∷◌, Option, none, some, length, codes, All,
  arith, inl, inr, Bool-cases, Option-cases, List-cases,
}
use open_fabric.Common.Text.{
  Text, has_prefix, contains, contains_rune, fields, trim, OccursIn, contains-absent,
  contains_rune-absent, same_text_iff,
}
use open_fabric.Sandbox.Segments.{
  Rejection, base_name, is_quote, check_arg_for_traversal, is_allowed_absolute_path, check_args,
  is_listed, check_words, check_segments, segments_of, check_all_segments,
}
use open_fabric.Sandbox.Gates.{
  unicode_bidi_overrides, max_arg_count, wasm_prefix, is_control, is_private_use, first_rune,
  first_bidi, check_operators, before, reject_rune, check_null, check_bidi, check_runes,
  validate_command,
}

-- An argument that stays in the task's directory, as far as its own text shows.
pub record IsConfined (arg : Text) : Type 0 where
  pub below : ¬ OccursIn (codes "../") (trim is_quote arg)
  pub not_parent : trim is_quote arg ≢ codes ".."
  pub absolute :
      has_prefix (trim is_quote arg) (codes "/") ≡ true
      → is_allowed_absolute_path (trim is_quote arg) ≡ true

-- The name of the binary is on the list, and the arguments are confined.
abbrev pub IsPermitted : List Text → List Text → Type 0
IsPermitted allowlist [] = Unit
IsPermitted allowlist (binary ∷ args) =
    (is_listed (base_name binary) allowlist ≡ true) × All IsConfined args

check_arg-IsConfined : (arg : Text) → check_arg_for_traversal arg ≡ none → IsConfined arg
unfolding check_arg_for_traversal
check_arg-IsConfined arg h = record {
  below = contains-absent _ _ (ground arith);
  not_parent = λ e. ground (arith, (same_text_iff (trim is_quote arg) (codes "..")).1 e);
  absolute = λ e. ground arith;
}

check_args-confines : (args : List Text) → check_args args ≡ none → All IsConfined args
unfolding check_args
check_args-confines [] h = tt
check_args-confines (arg ∷ args) h = elim (Option-cases (check_arg_for_traversal arg)) [
  | inl e ↦ (check_arg-IsConfined arg e, check_args-confines args (ground arith))
  | inr (r, e) ↦ absurd (ground arith)
]

check_words-IsPermitted :
    (allowlist words : List Text) → check_words allowlist words ≡ none → IsPermitted allowlist words
unfolding check_words
check_words-IsPermitted allowlist [] h = tt
check_words-IsPermitted allowlist (binary ∷ args) h =
    elim (Bool-cases (is_listed (base_name binary) allowlist)) [
      | inl e ↦ (e, check_args-confines args (ground arith))
      | inr e ↦ absurd (ground arith)
    ]

check_segments-permits :
    (allowlist segments : List Text)
    → check_segments allowlist segments ≡ none
    → All (λ s. IsPermitted allowlist (fields s)) segments
unfolding check_segments
check_segments-permits allowlist [] h = tt
check_segments-permits allowlist (s ∷ segments) h =
    elim (Option-cases (check_words allowlist (fields s))) [
      | inl e ↦ (
        check_words-IsPermitted allowlist (fields s) e,
        check_segments-permits allowlist segments (ground arith),
      )
      | inr (r, e) ↦ absurd (ground arith)
    ]

first_rune-absent :
    (test : ℕ → Bool) (s : Text) → first_rune test s ≡ none → All (λ c. test c ≡ false) s
unfolding first_rune
first_rune-absent test [] h = tt
first_rune-absent test (c ∷ s) h = elim (Bool-cases (test c)) [
  | inl e ↦ absurd (ground arith)
  | inr e ↦ (e, first_rune-absent test s (ground arith))
]

first_bidi-absent :
    (s : Text) (bs : List ℕ) → first_bidi s bs ≡ none → All (λ b. All (λ c. c ≢ b) s) bs
unfolding first_bidi
first_bidi-absent s [] h = tt
first_bidi-absent s (b ∷ bs) h = elim (Bool-cases (contains_rune s b)) [
  | inl e ↦ absurd (ground arith)
  | inr e ↦ (contains_rune-absent s b e, first_bidi-absent s bs (ground arith))
]

-- What passes in sandbox mode and does not go to the WASM runner.
pub record IsClean (command : Text) (allowlist : List Text) : Type 0 where
  pub no_null : All (λ c. c ≢ 0) command
  pub no_control : All (λ c. is_control c ≡ false) command
  pub no_bidi : All (λ b. All (λ c. c ≢ b) command) unicode_bidi_overrides
  pub no_private : All (λ c. is_private_use c ≡ false) command
  pub no_output : ¬ OccursIn (codes ">") command
  pub no_input : ¬ OccursIn (codes "<") command
  pub no_subshell : ¬ OccursIn (codes "$(") command
  pub no_backquote : ¬ OccursIn (codes "`") command
  pub few : length (fields command) ≤ max_arg_count
  pub nonempty : segments_of command ≢ []
  pub permitted : All (λ s. IsPermitted allowlist (fields s)) (segments_of command)

before-none : (a b : Option Rejection) → before a b ≡ none → (a ≡ none) × (b ≡ none)
unfolding before
before-none none b h = (refl, h)
before-none (some e) b h = absurd (ground arith)

reject_rune-none : (f : ℕ → Rejection) (o : Option ℕ) → reject_rune f o ≡ none → o ≡ none
unfolding reject_rune
reject_rune-none f none h = refl
reject_rune-none f (some r) h = absurd (ground arith)

check_null-absent : (s : Text) → check_null s ≡ none → All (λ c. c ≢ 0) s
unfolding check_null
check_null-absent s h = contains_rune-absent s 0 (ground arith)

check_bidi-absent :
    (s : Text) → check_bidi s ≡ none → All (λ b. All (λ c. c ≢ b) s) unicode_bidi_overrides
unfolding check_bidi
check_bidi-absent s h = first_bidi-absent s unicode_bidi_overrides (reject_rune-none _ _ h)

check_runes-absent :
    (f : ℕ → Rejection) (test : ℕ → Bool) (s : Text)
    → check_runes f test s ≡ none
    → All (λ c. test c ≡ false) s
unfolding check_runes
check_runes-absent f test s h = first_rune-absent test s (reject_rune-none f _ h)

operators-absent :
    (s : Text)
    → check_operators s ≡ none
    → (contains s (codes ">") ≡ false)
      × (contains s (codes "<") ≡ false)
      × (contains s (codes "$(") ≡ false)
      × (contains s (codes "`") ≡ false)
      × (length (fields s) ≤ max_arg_count)
unfolding check_operators
operators-absent s h = ground arith

segments-permit :
    (allowlist : List Text) (s : Text)
    → check_all_segments allowlist s ≡ none
    → (segments_of s ≢ []) × All (λ t. IsPermitted allowlist (fields t)) (segments_of s)
unfolding check_all_segments
segments-permit allowlist s h = elim (List-cases (segments_of s)) [
  | inl e ↦ absurd (ground arith)
  | inr (t, ts, e) ↦
      let found = check_segments-permits allowlist (t ∷ ts) (rw (e, check_all_segments) at h) in
      (λ q. ground arith, rw e found)
]

passed-none :
    (command : Text) (allowlist : List Text)
    → has_prefix command wasm_prefix ≡ false
    → validate_command command allowlist true ≡ none
    → before (check_null command) (
        before (check_runes Rejection.control_character is_control command) (
          before (check_bidi command) (
            before
              (check_runes Rejection.private_use is_private_use command)
              (before (check_operators command) (check_all_segments allowlist command)))))
      ≡ none
unfolding validate_command
passed-none command allowlist w h = ground arith

-- A command that passes in sandbox mode and is not for the WASM runner has no null, no control character but tab, line feed and carriage return, no bidirectional override, no private-use character, no redirection, no backquote and no $( in it, and at most 64 words; in each of its segments the name of the binary is on the list, and no argument, its quotes at both ends taken off, has ../ in it, is .. or is an absolute path outside the allowed directories.
pub validate_command-IsClean :
    (command : Text) (allowlist : List Text)
    → has_prefix command wasm_prefix ≡ false
    → validate_command command allowlist true ≡ none
    → IsClean command allowlist
validate_command-IsClean command allowlist w h =
    let (null, rest1) = before-none _ _ (passed-none command allowlist w h) in
    let (control, rest2) = before-none _ _ rest1 in
    let (bidi, rest3) = before-none _ _ rest2 in
    let (private, rest4) = before-none _ _ rest3 in
    let (operators, segments) = before-none _ _ rest4 in
    let (out, into, shell, quote, few) = operators-absent command operators in
    let (nonempty, permitted) = segments-permit allowlist command segments in
    record {
      no_null = check_null-absent command null;
      no_control = check_runes-absent _ is_control command control;
      no_bidi = check_bidi-absent command bidi;
      no_private = check_runes-absent _ is_private_use command private;
      no_output = contains-absent command _ out;
      no_input = contains-absent command _ into;
      no_subshell = contains-absent command _ shell;
      no_backquote = contains-absent command _ quote;
      few = few;
      nonempty = nonempty;
      permitted = permitted;
    }
