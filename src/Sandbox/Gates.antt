-- ===== src/Sandbox/Gates.antt =====
-- internal/scheduler/sandbox.go: ValidateCommand, gate by gate, and ParseWASMCommand of
-- internal/scheduler/wasm.go.
use open_fabric.Common.{
  ℕ, Bool, not, ◌&&◌, ◌||◌, if◌then◌else◌, eqb, leb, ltb, List, [], ◌∷◌, Option, none, some, length,
  codes, drop,
}
use open_fabric.Common.Text.{Text, has_prefix, contains, contains_rune, is_blank, fields}
use open_fabric.Sandbox.Segments.{
  Rejection, empty_command, null_byte, redirection, subshell, process_substitution,
  control_character, bidi_character, private_use, too_many_arguments, check_all_segments,
}

abbrev pub unicode_bidi_overrides : List ℕ
unicode_bidi_overrides =
    0x202A ∷ 0x202B ∷ 0x202C ∷ 0x202D ∷ 0x202E ∷ 0x2066 ∷ 0x2067 ∷ 0x2068 ∷ 0x2069 ∷ 0x200F ∷ 0x200E
    ∷ 0xFFF9 ∷ 0xFFFA ∷ 0xFFFB ∷ []

abbrev pub max_arg_count : ℕ
max_arg_count = 64

abbrev pub wasm_prefix : Text
wasm_prefix = codes "wasm://"

abbrev pub is_control : ℕ → Bool
is_control r = ltb r 0x20 && not (eqb r 9) && not (eqb r 10) && not (eqb r 13)

-- unicode.Co
abbrev pub is_private_use : ℕ → Bool
is_private_use r =
    leb 0xE000 r && leb r 0xF8FF
    || leb 0xF0000 r && leb r 0xFFFFD
    || leb 0x100000 r && leb r 0x10FFFD

-- The loops of gates 3 and 5: the first character that a test finds.
unfoldable pub first_rune : (ℕ → Bool) → Text → Option ℕ
first_rune test [] = none
first_rune test (c ∷ s) = if test c then some c else first_rune test s

-- The loop of gate 4: the first override that the command contains.
unfoldable pub first_bidi : Text → List ℕ → Option ℕ
first_bidi command [] = none
first_bidi command (b ∷ bs) = if contains_rune command b then some b else first_bidi command bs

-- Gates 6 to 9.
unfoldable pub check_operators : Text → Option Rejection
check_operators command =
    if contains command (codes ">") || contains command (codes "<")
    then some redirection
    else if contains command (codes "$(") || contains command (codes "`")
    then some subshell
    else if contains command (codes "<(") || contains command (codes ">(")
    then some process_substitution
    else if ltb max_arg_count (length (fields command))
    then some (too_many_arguments (length (fields command)))
    else none

-- A gate that rejects ends the check.
unfoldable pub before : Option Rejection → Option Rejection → Option Rejection
before (some e) next = some e
before none next = next

unfoldable pub reject_rune : (ℕ → Rejection) → Option ℕ → Option Rejection
reject_rune rejection none = none
reject_rune rejection (some r) = some (rejection r)

unfoldable pub check_null : Text → Option Rejection
check_null command = if contains_rune command 0 then some null_byte else none

unfoldable pub check_bidi : Text → Option Rejection
check_bidi command = reject_rune bidi_character (first_bidi command unicode_bidi_overrides)

-- Gates 3 and 5, a loop over the characters each.
unfoldable pub check_runes : (ℕ → Rejection) → (ℕ → Bool) → Text → Option Rejection
check_runes rejection test command = reject_rune rejection (first_rune test command)

unfoldable pub validate_command : Text → List Text → Bool → Option Rejection
validate_command command allowlist sandbox_mode =
    if not sandbox_mode
    then none
    else if is_blank command
    then some empty_command
    else if has_prefix command wasm_prefix
    then before (check_null command) (check_bidi command)
    else before (check_null command) (
        before (check_runes control_character is_control command) (
          before (check_bidi command) (
            before (check_runes private_use is_private_use command)
              (before (check_operators command) (check_all_segments allowlist command)))))

-- ParseWASMCommand: the file and the arguments.
pub data WasmCommand : Type 0 where
  not_wasm no_filename : WasmCommand
  bad_filename : Text → WasmCommand
  wasm_file : Text → List Text → WasmCommand

unfoldable pub wasm_words : List Text → WasmCommand
wasm_words [] = no_filename
wasm_words (fname ∷ args) =
    if contains fname (codes "..") || contains fname (codes "/") || contains fname (92 ∷ [])
    then bad_filename fname
    else wasm_file fname args

unfoldable pub parse_wasm_command : Text → WasmCommand
parse_wasm_command command =
    if has_prefix command wasm_prefix
    then wasm_words (fields (drop (length wasm_prefix) command))
    else not_wasm
