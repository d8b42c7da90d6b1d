-- ===== src/Flow/Graph.antt =====
-- internal/flow/flow.go: validateDependencies. The depth of its search is bounded by a fuel, one more
-- than the number of steps.
pub mod Order
pub mod Fuel
pub mod Names
pub mod Sound
use open_fabric.Common.{
  ℕ, zero, suc, Bool, true, false, not, ◌&&◌, ◌||◌, if◌then◌else◌, Option, none, some, List, [],
  ◌∷◌, String, Dict, lookup, insert, string_eq, ◌==◌, length,
}

pub data StepType : Type 0 where
  step_shell step_ai step_save step_notify : StepType

-- The fields of a step that the check and the coordination read.
pub record Step : Type 0 where
  pub id : String
  pub kind : StepType
  pub depends_on : List String
  pub save_to : String
  pub path : String

pub data FlowError : Type 0 where
  empty_id : FlowError
  duplicate_id : String → FlowError
  collision unknown_step : String → String → FlowError
  self_dependency cyclic_dependency : String → FlowError
  search_cut : FlowError

abbrev pub save_path : Step → String
save_path s = if s.save_to == "" then s.path else s.save_to

unfoldable pub writes_file : StepType → Bool
writes_file step_save = true
writes_file step_ai = true
writes_file _ = false

unfoldable pub is_known : String → List String → Bool
is_known id [] = false
is_known id (k ∷ known) = k == id || is_known id known

-- The first loop: the identifiers, and the files that steps save to.
unfoldable pub check_ids : List String → Dict String String → List Step → Option FlowError
check_ids known targets [] = none
check_ids known targets (s ∷ steps) =
    if s.id == ""
    then some empty_id
    else if is_known s.id known
    then some (duplicate_id s.id)
    else if not (save_path s == "") && writes_file s.kind
    then (elim (lookup (save_path s) targets) [
      | some first ↦ some (collision first s.id)
      | none ↦ check_ids (s.id ∷ known) (insert (save_path s) s.id targets) steps
    ])
    else check_ids (s.id ∷ known) targets steps

unfoldable pub ids : List Step → List String
ids [] = []
ids (s ∷ steps) = s.id ∷ ids steps

-- The second loop: what a step depends on is another step of the flow.
unfoldable pub check_dependencies : List String → String → List String → Option FlowError
check_dependencies known id [] = none
check_dependencies known id (d ∷ deps) =
    if not (is_known d known)
    then some (unknown_step id d)
    else if d == id
    then some (self_dependency id)
    else check_dependencies known id deps

unfoldable pub check_references : List String → List Step → Option FlowError
check_references known [] = none
check_references known (s ∷ steps) = elim (check_dependencies known s.id s.depends_on) [
  | some e ↦ some e
  | none ↦ check_references known steps
]

unfoldable pub dependencies : List Step → String → List String
dependencies [] id = []
dependencies (s ∷ steps) id = if s.id == id then s.depends_on else dependencies steps id

pub data Color : Type 0 where
  white grey black : Color

abbrev pub Colors : Type 0
Colors = String → Color

abbrev pub paint : Colors → String → Color → Colors
paint c id x j = if id == j then x else c j

-- What a search returns: the colours, or the step by which a cycle was seen.
pub data Search : Type 0 where
  done : Colors → Search
  cycle : String → Search
  cut : Search

unfoldable pub each : (Colors → String → Search) → Colors → List String → Search
each visit c [] = done c
each visit c (d ∷ deps) = elim (visit c d) [
  | done c' ↦ each visit c' deps
  | cycle id ↦ cycle id
  | cut ↦ cut
]

abbrev pub blacken : String → Search → Search
blacken id (done c) = done (paint c id black)
blacken id (cycle j) = cycle j
blacken id cut = cut

unfoldable pub dfs : ℕ → List Step → Colors → String → Search
dfs zero steps c id = cut
dfs (suc fuel) steps c id = elim (c id) [
  | black ↦ done c
  | grey ↦ cycle id
  | white ↦ blacken id (each (dfs fuel steps) (paint c id grey) (dependencies steps id))
]

abbrev pub unvisited : Colors
unvisited id = white

abbrev pub search_error : Search → Option FlowError
search_error (done c) = none
search_error (cycle id) = some (cyclic_dependency id)
search_error cut = some search_cut

unfoldable pub search : List Step → Search
search steps = each (dfs (suc (length steps)) steps) unvisited (ids steps)

unfoldable pub validate_dependencies : List Step → Option FlowError
validate_dependencies steps = elim (check_ids [] [] steps) [
  | some e ↦ some e
  | none ↦ elim (check_references (ids steps) steps) [
    | some e ↦ some e
    | none ↦ search_error (search steps)
  ]
]
