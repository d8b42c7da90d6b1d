-- ===== src/Affinity/Tests.antt =====
-- The tracker at a concrete history.
use open_fabric.Common.{◌≡◌, refl, true, false, none, List, [], ◌∷◌}
use open_fabric.Affinity.{TaskOutcome, Strings, new_affinity_tracker, record_all, records_of}
use open_fabric.Affinity.Summary.{find_node, summary, find_node-summary}

abbrev plain_strings : Strings
plain_strings = record {
  fields = λ s. s ∷ [];
  trim_slashes = λ s. s;
  last_slash = λ s. none;
  from_byte = λ s n. s;
}

abbrev two_successes : List TaskOutcome
two_successes =
    record { node_id = "n1"; command = "ollama"; success = true; completed_at = 5 }
    ∷ record { node_id = "n2"; command = "ollama"; success = false; completed_at = 6 }
    ∷ record { node_id = "n1"; command = "ollama"; success = true; completed_at = 9 }
    ∷ []

find_node-summary_example :
    find_node "n1"
      (records_of (record_all plain_strings new_affinity_tracker two_successes) "ollama")
    ≡ summary plain_strings "ollama" "n1" none two_successes
find_node-summary_example = find_node-summary plain_strings two_successes "ollama" "n1" refl
