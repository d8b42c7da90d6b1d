-- ===== src/Affinity/Summary.antt =====
-- What the tracker knows of a node is a summary of its own successes.
use open_fabric.Common.{
  suc, ◌≡◌, refl, sym, ap, subst, ◌∙◌, String, Bool, true, false, if◌then◌else◌, ◌==◌, ◌&&◌, Option,
  none, some, List, [], ◌∷◌, lookup, lookup-insert, string_eq, arith, Bool-cases, inl, inr, ==-eq,
  ==-refl,
}
use open_fabric.Affinity.{
  AffinityRecord, AffinityTracker, TaskOutcome, Strings, affinity_key, records_of, update_records,
  record_execution, record_all, new_affinity_tracker,
}

-- The first record of a node.
pub find_node : String → List AffinityRecord → Option AffinityRecord
find_node id [] = none
find_node id (r ∷ rs) = if r.node_id == id then some r else find_node id rs

-- A success of the node with a command of the key.
abbrev pub counts : Strings → String → String → TaskOutcome → Bool
counts s key id o = o.success && (affinity_key s o.command == key) && (o.node_id == id)

-- The number of those successes in a history, and the time of the last, if there is one.
pub summary :
    Strings → String → String → Option AffinityRecord → List TaskOutcome → Option AffinityRecord
summary s key id acc [] = acc
summary s key id acc (o ∷ os) =
    summary s key id
      (if counts s key id o
        then some (record {
          node_id = id;
          pattern = key;
          last_success = o.completed_at;
          success_count = elim acc [ none ↦ 1 | some r ↦ suc r.success_count ];
        })
        else acc)
      os

abbrev pub Labelled : String → List AffinityRecord → Type 0
Labelled key [] = Unit
Labelled key (r ∷ rs) = (r.pattern ≡ key) × Labelled key rs

update_records-Labelled :
    (key : String) (o : TaskOutcome) (rs : List AffinityRecord)
    → Labelled key rs
    → Labelled key (update_records key o rs)
unfolding update_records
update_records-Labelled key o [] h = (refl, tt)
update_records-Labelled key o (r ∷ rs) h = ground (arith, update_records-Labelled key o rs h.1)

find_node-update_records :
    (key id : String) (o : TaskOutcome) (rs : List AffinityRecord)
    → Labelled key rs
    → find_node id (update_records key o rs) ≡ (
        if o.node_id == id
        then some (record {
          node_id = id;
          pattern = key;
          last_success = o.completed_at;
          success_count = elim (find_node id rs) [ none ↦ 1 | some r ↦ suc r.success_count ];
        })
        else find_node id rs)
unfolding update_records find_node
find_node-update_records key id o [] h = ground (arith, string_eq.same_iff o.node_id id)
find_node-update_records key id o (r ∷ rs) h = ground (
  arith,
  string_eq.same_iff o.node_id id,
  string_eq.same_iff r.node_id id,
  string_eq.same_iff r.node_id o.node_id,
  find_node-update_records key id o rs h.1,
)

records_of-record_execution :
    (s : Strings) (a : AffinityTracker) (o : TaskOutcome) (key : String)
    → (key == "") ≡ false
    → records_of (record_execution s a o) key ≡ (
        if o.success && (affinity_key s o.command == key)
        then update_records key o (records_of a key)
        else records_of a key)
unfolding records_of record_execution
records_of-record_execution s a o key h = elim (Bool-cases (affinity_key s o.command == key)) [
  | inl same ↦ rw (==-eq (affinity_key s o.command) key same) (
      ground (
        arith,
        ==-refl key,
        lookup-insert key key (update_records key o (records_of a key)) a.records,
      ))
  | inr other ↦ ground (
    arith,
    lookup-insert (affinity_key s o.command) key
        (update_records (affinity_key s o.command) o (records_of a (affinity_key s o.command)))
        a.records,
  )
]

-- Every record of a key carries it as its pattern.
abbrev pub IsLabelled : AffinityTracker → Type 0
IsLabelled a = (key : String) → (key == "") ≡ false → Labelled key (records_of a key)

record_execution-IsLabelled :
    (s : Strings) (a : AffinityTracker) (o : TaskOutcome)
    → IsLabelled a
    → IsLabelled (record_execution s a o)
record_execution-IsLabelled s a o h key some_key =
    let rest = h key some_key in
    subst (Labelled key) (sym (records_of-record_execution s a o key some_key))
      (elim (o.success && (affinity_key s o.command == key))
        as (λ b.
          Labelled key (if b then update_records key o (records_of a key) else records_of a key)) [
            | true ↦ update_records-Labelled key o (records_of a key) rest
            | false ↦ rest
          ])

find_node-record_all :
    (s : Strings) (a : AffinityTracker) (os : List TaskOutcome) (key id : String)
    → (key == "") ≡ false
    → IsLabelled a
    → find_node id (records_of (record_all s a os) key)
      ≡ summary s key id (find_node id (records_of a key)) os
unfolding record_all summary
find_node-record_all s a [] key id h l = refl
find_node-record_all s a (o ∷ os) key id h l =
    find_node-record_all s (record_execution s a o) os key id h
      (record_execution-IsLabelled s a o l)
    ∙ ap (λ acc. summary s key id acc os)
        (ap (find_node id) (records_of-record_execution s a o key h)
          ∙ ground (arith, find_node-update_records key id o (records_of a key) (l key h)))

-- After any history of outcomes, what a new tracker knows of a node under a key, which is not
-- empty, is the number of that node's own successes with commands of the key and the time of the
-- last of them in the history; without such a success it has no record of the node.
pub find_node-summary :
    (s : Strings) (os : List TaskOutcome) (key id : String)
    → (key == "") ≡ false
    → find_node id (records_of (record_all s new_affinity_tracker os) key)
      ≡ summary s key id none os
unfolding records_of lookup find_node
find_node-summary s os key id h =
    find_node-record_all s new_affinity_tracker os key id h (λ k some_key. tt)
