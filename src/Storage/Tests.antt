-- ===== src/Storage/Tests.antt =====
-- The register's theorems at concrete inputs.
use open_fabric.Common.{ℕ, ◌≡◌, ◌≢◌, sym, ap, ◌∙◌, false, List, [], ◌∷◌, arith, string_eq}
use mathlib.Core.List.{Memᴰ}
use open_fabric.Common.Int.{pos}
use open_fabric.Storage.{MetaEntry, CrdtStore, new_crdt_store, get, delete, merge_all}
use open_fabric.Storage.Convergence.{merge_all-converges, NoTies}

abbrev entry_at : ℕ → ℕ → MetaEntry
entry_at size time = record {
  path = "notes";
  node_id = "n1";
  size = pos size;
  mod_time = time;
  updated_at = time;
  tombstone = false;
  checksum = "";
}

abbrev one_order : List MetaEntry
one_order = entry_at 5 1 ∷ entry_at 7 2 ∷ []

abbrev other_order : List MetaEntry
other_order = entry_at 7 2 ∷ entry_at 5 1 ∷ entry_at 7 2 ∷ []

other_there : (e : MetaEntry) → Memᴰ e one_order → Memᴰ e other_order
other_there e (Memᴰ.head h) = Memᴰ.tail (Memᴰ.head h)
other_there e (Memᴰ.tail (Memᴰ.head h)) = Memᴰ.head h
other_there e (Memᴰ.tail (Memᴰ.tail h)) = elim h [ ]

one_there : (e : MetaEntry) → Memᴰ e other_order → Memᴰ e one_order
one_there e (Memᴰ.head h) = Memᴰ.tail (Memᴰ.head h)
one_there e (Memᴰ.tail (Memᴰ.head h)) = Memᴰ.head h
one_there e (Memᴰ.tail (Memᴰ.tail (Memᴰ.head h))) = Memᴰ.tail (Memᴰ.head h)
one_there e (Memᴰ.tail (Memᴰ.tail (Memᴰ.tail h))) = elim h [ ]

time_of : (e : MetaEntry) (n s : ℕ) → e ≡ entry_at s n → e.updated_at ≡ n
time_of e n s h = ap (λ (x : MetaEntry). x.updated_at) h

one_order-NoTies : NoTies one_order
one_order-NoTies x y (Memᴰ.head h) (Memᴰ.head k) p t = h ∙ sym k
one_order-NoTies x y (Memᴰ.head h) (Memᴰ.tail (Memᴰ.head k)) p t =
    absurd (omega (arith, time_of x 1 5 h, time_of y 2 7 k))
one_order-NoTies x y (Memᴰ.tail (Memᴰ.head h)) (Memᴰ.head k) p t =
    absurd (omega (arith, time_of x 2 7 h, time_of y 1 5 k))
one_order-NoTies x y (Memᴰ.tail (Memᴰ.head h)) (Memᴰ.tail (Memᴰ.head k)) p t = h ∙ sym k
one_order-NoTies x y (Memᴰ.head h) (Memᴰ.tail (Memᴰ.tail k)) p t = elim k [ ]
one_order-NoTies x y (Memᴰ.tail (Memᴰ.head h)) (Memᴰ.tail (Memᴰ.tail k)) p t = elim k [ ]
one_order-NoTies x y (Memᴰ.tail (Memᴰ.tail h)) k p t = elim h [ ]

merge_all-converges_example :
    get (merge_all new_crdt_store one_order) "notes"
    ≡ get (merge_all new_crdt_store other_order) "notes"
merge_all-converges_example =
    merge_all-converges one_order other_order "notes" other_there one_there one_order-NoTies

abbrev left_store : CrdtStore
left_store = merge_all new_crdt_store (entry_at 5 1 ∷ entry_at 7 1 ∷ [])

abbrev right_store : CrdtStore
right_store = merge_all new_crdt_store (entry_at 7 1 ∷ entry_at 5 1 ∷ [])

entries_differ : entry_at 5 1 ≢ entry_at 7 1
entries_differ h = absurd (ground (arith, ap (λ (x : MetaEntry). x.size) h))

abbrev deleted_store : CrdtStore
deleted_store = delete (merge_all new_crdt_store one_order) "notes" "n2" 3
