-- ===== src/Affinity.antt =====
-- internal/scheduler/affinity.go: which nodes have run a command. Times are in nanoseconds; Go's
-- `strings` functions are an argument.
pub mod Summary
mod Tests
use open_fabric.Common.{
  ℕ, suc, ◌+◌, ◌-◌, String, Bool, true, false, ltb, if◌then◌else◌, ◌==◌, Option, none, some, List,
  [], ◌∷◌, ◌++◌, Dict, lookup, insert, string_eq,
}

pub record AffinityRecord : Type 0 where
  pub node_id : String
  pub pattern : String
  pub last_success : ℕ
  pub success_count : ℕ

pub record AffinityTracker : Type 0 where
  pub records : Dict String (List AffinityRecord)

abbrev pub new_affinity_tracker : AffinityTracker
new_affinity_tracker = record { records = [] }

-- The fields of `TaskOutcome` that the tracker reads.
pub record TaskOutcome : Type 0 where
  pub node_id : String
  pub command : String
  pub success : Bool
  pub completed_at : ℕ

-- `Fields`, `TrimRight(_, "/")`, `LastIndex(_, "/")` and the slice from a byte on.
pub record Strings : Type 0 where
  pub fields : String → List String
  pub trim_slashes : String → String
  pub last_slash : String → Option ℕ
  pub from_byte : String → ℕ → String

key_of_parts : Strings → List String → String
key_of_parts s [] = ""
key_of_parts s (first ∷ rest) =
    let bin = s.trim_slashes first in
    elim (s.last_slash bin) [ none ↦ bin | some idx ↦ s.from_byte bin (idx + 1) ]

-- `affinityKey`.
unfoldable pub affinity_key : Strings → String → String
unfolding key_of_parts
affinity_key s command = key_of_parts s (s.fields command)

-- `records[key]`, nil when there is none.
unfoldable pub records_of : AffinityTracker → String → List AffinityRecord
records_of a key = elim (lookup key a.records) [ none ↦ [] | some rs ↦ rs ]

-- The loop over the records of the key, and the record that is appended when no node matches.
unfoldable pub update_records : String → TaskOutcome → List AffinityRecord → List AffinityRecord
update_records key o [] =
    record { node_id = o.node_id; pattern = key; last_success = o.completed_at; success_count = 1 }
    ∷ []
update_records key o (r ∷ rs) =
    if r.node_id == o.node_id
    then record r { last_success = o.completed_at; success_count = suc r.success_count } ∷ rs
    else r ∷ update_records key o rs

-- `RecordExecution`.
unfoldable pub record_execution : Strings → AffinityTracker → TaskOutcome → AffinityTracker
record_execution s a o =
    let key = affinity_key s o.command in
    if o.success
    then if key == ""
      then a
      else record a { records = insert key (update_records key o (records_of a key)) a.records }
    else a

-- 30 minutes, in nanoseconds.
abbrev pub affinity_window : ℕ
affinity_window = 1800000000000

fresh_nodes : ℕ → List AffinityRecord → List String
fresh_nodes cutoff [] = []
fresh_nodes cutoff (r ∷ rs) =
    let rest = fresh_nodes cutoff rs in if ltb cutoff r.last_success then r.node_id ∷ rest else rest

-- `PreferredNodes`, for a clock past the window.
unfoldable pub preferred_nodes : Strings → AffinityTracker → String → ℕ → List String
unfolding fresh_nodes
preferred_nodes s a command now =
    let key = affinity_key s command in
    if key == "" then [] else fresh_nodes (now - affinity_window) (records_of a key)

unfoldable pub record_all : Strings → AffinityTracker → List TaskOutcome → AffinityTracker
record_all s a [] = a
record_all s a (o ∷ os) = record_all s (record_execution s a o) os
