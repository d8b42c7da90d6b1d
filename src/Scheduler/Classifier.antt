-- ===== src/Scheduler/Classifier.antt =====
-- internal/scheduler/classifier.go: the class and the needs of a task, read off its command. The
-- functions of the packages `strings`, `strconv` and `regexp` are a parameter.
pub mod Needs
mod Tests
use open_fabric.Common.{
  ℕ, ◌*◌, Bool, true, false, if◌then◌else◌, Option, none, some, List, [], ◌∷◌, String, Dict, lookup,
  ◌||◌, ◌==◌, string_eq,
}
use open_fabric.Common.Int.{ℤ, pos, wrap64, ◌*ℤ◌, leb_ℤ}
use open_fabric.Admission.{priority_critical}

pub data TaskClass : Type 0 where
  class_shell class_llm class_gpu class_io class_cpu : TaskClass

abbrev pub priority_high : ℕ
priority_high = 75

abbrev pub priority_normal : ℕ
priority_normal = 50

abbrev pub priority_background : ℕ
priority_background = 25

-- `min_ram_bytes` is an int64.
pub record TaskRequirements : Type 0 where
  pub class : TaskClass
  pub min_ram_bytes : ℤ
  pub prefers_gpu : Bool
  pub requires_gpu : Bool
  pub estimated_secs : ℕ
  pub priority : ℕ
  pub allowed_nodes : List String
  pub preferred_nodes : List String

-- What the classifier calls: strings.Contains (the text, then what is sought), ToLower and TrimSpace,
-- strconv.ParseInt, and the match of `ioPattern`.
pub record Text : Type 0 where
  pub contains : String → String → Bool
  pub to_lower : String → String
  pub trim_space : String → String
  pub parse_int : String → Option ℤ
  pub match_io : String → Bool

unfoldable pub contains_any : Text → String → List String → Bool
contains_any x cmd [] = false
contains_any x cmd (p ∷ ps) = x.contains cmd p || contains_any x cmd ps

abbrev pub llm_patterns : List String
llm_patterns = "ollama run" ∷ "ollama chat" ∷ "llm " ∷ "llama" ∷ "mistral" ∷ "gemma" ∷ []

abbrev pub gpu_patterns : List String
gpu_patterns =
    "stable diffusion" ∷ "stable_diffusion" ∷ "sdxl" ∷ "flux" ∷ "comfyui" ∷ "a1111" ∷ "txt2img" ∷ []

abbrev pub cpu_patterns : List String
cpu_patterns = "go build" ∷ "gcc" ∷ "make " ∷ "cargo build" ∷ "ffmpeg" ∷ "python3 train" ∷ []

unfoldable pub is_llm_command : Text → String → Bool
is_llm_command x cmd = contains_any x cmd llm_patterns

unfoldable pub is_gpu_command : Text → String → Bool
is_gpu_command x cmd = contains_any x cmd gpu_patterns

unfoldable pub is_cpu_intensive : Text → String → Bool
is_cpu_intensive x cmd = contains_any x cmd cpu_patterns

abbrev pub gb : ℕ → ℤ
gb n = pos (n * 1073741824)

abbrev pub mb : ℕ → ℤ
mb n = pos (n * 1048576)

unfoldable pub estimate_llm_ram : Text → String → ℤ
estimate_llm_ram x cmd =
    if x.contains cmd "405b"
    then gb 240
    else if x.contains cmd "70b"
    then gb 40
    else if x.contains cmd "34b"
    then gb 20
    else if x.contains cmd "13b"
    then gb 8
    else if x.contains cmd "8b" || x.contains cmd "7b"
    then gb 5
    else if x.contains cmd "3b"
    then gb 2
    else gb 4

-- The switch of `parsePriority`, on the trimmed text in lower case.
unfoldable pub priority_named : String → ℕ
priority_named word =
    if word == "critical"
    then priority_critical
    else if word == "high"
    then priority_high
    else if word == "background" || word == "low"
    then priority_background
    else priority_normal

unfoldable pub parse_priority : Text → String → ℕ
parse_priority x s = priority_named (x.to_lower (x.trim_space s))

unfoldable pub parse_mb : Text → String → ℤ
parse_mb x s = elim (x.parse_int (x.trim_space s)) [
  | none ↦ mb 256
  | some v ↦ if leb_ℤ v (pos 0) then mb 256 else wrap64 (wrap64 (v *ℤ pos 1024) *ℤ pos 1024)
]

abbrev pub default_requirements : TaskRequirements
default_requirements = record {
  class = class_shell;
  min_ram_bytes = mb 256;
  prefers_gpu = false;
  requires_gpu = false;
  estimated_secs = 30;
  priority = priority_normal;
  allowed_nodes = [];
  preferred_nodes = [];
}

-- The three hints, each where the caller gives it. A nil map of hints is an empty one.
unfoldable pub hint_priority : Text → Dict String String → TaskRequirements → TaskRequirements
hint_priority x hints req = elim (lookup "priority" hints) [
  | none ↦ req
  | some v ↦ record req { priority = parse_priority x v }
]

unfoldable pub hint_ram : Text → Dict String String → TaskRequirements → TaskRequirements
hint_ram x hints req = elim (lookup "min_ram_mb" hints) [
  | none ↦ req
  | some v ↦ record req { min_ram_bytes = parse_mb x v }
]

unfoldable pub hint_node : Dict String String → TaskRequirements → TaskRequirements
hint_node hints req = elim (lookup "node" hints) [
  | none ↦ req
  | some v ↦ record req { allowed_nodes = v ∷ [] }
]

unfoldable pub apply_hints : Text → Dict String String → TaskRequirements → TaskRequirements
apply_hints x hints req = hint_node hints (hint_ram x hints (hint_priority x hints req))

unfoldable pub classify : Text → String → Dict String String → TaskRequirements
classify x cmd hints =
    let lower = x.to_lower cmd in
    if is_llm_command x lower
    then record default_requirements {
      class = class_llm;
      min_ram_bytes = estimate_llm_ram x cmd;
      prefers_gpu = true;
      estimated_secs = 120;
      priority = priority_high;
    }
    else if is_gpu_command x lower
    then record default_requirements {
      class = class_gpu;
      requires_gpu = true;
      min_ram_bytes = gb 6;
      estimated_secs = 60;
    }
    else if is_cpu_intensive x lower
    then record default_requirements {
      class = class_cpu;
      min_ram_bytes = gb 1;
      estimated_secs = 300;
    }
    else if x.match_io lower
    then record default_requirements {
      class = class_io;
      min_ram_bytes = mb 128;
      estimated_secs = 60;
    }
    else apply_hints x hints default_requirements
