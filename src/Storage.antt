-- ===== src/Storage.antt =====
-- internal/storage/crdt.go: the last-write-wins register of file metadata. A time is a number; saving
-- to disk, whose error the methods ignore, is left out.
pub mod Convergence
mod Tests
use open_fabric.Common.{
  ℕ, String, Bool, true, false, not, ltb, if◌then◌else◌, ◌==◌, Option, none, some, List, [], ◌∷◌,
  Dict, lookup, insert, string_eq,
}
use open_fabric.Common.Int.{ℤ, pos}

pub record MetaEntry : Type 0 where
  pub path : String
  pub node_id : String
  pub size : ℤ
  pub mod_time : ℕ
  pub updated_at : ℕ
  pub tombstone : Bool
  pub checksum : String

pub record CrdtStore : Type 0 where
  pub entries : Dict String MetaEntry
  pub file_path : String

abbrev pub new_crdt_store : CrdtStore
new_crdt_store = record { entries = []; file_path = "" }

unfoldable pub set_file_path : CrdtStore → String → CrdtStore
set_file_path c path = record c { file_path = path }

-- What the file holds for `LoadFromDisk`.
pub data OnDisk : Type 0 where
  missing unreadable malformed : OnDisk
  saved : Dict String MetaEntry → OnDisk

pub data LoadError : Type 0 where
  read_failed parse_failed : LoadError

load_found : CrdtStore → OnDisk → CrdtStore × Option LoadError
load_found c missing = (c, none)
load_found c unreadable = (c, some read_failed)
load_found c malformed = (c, some parse_failed)
load_found c (saved entries) = (record c { entries = entries }, none)

-- `LoadFromDisk`.
unfoldable pub load_from_disk : CrdtStore → OnDisk → CrdtStore × Option LoadError
unfolding load_found
load_from_disk c disk = if c.file_path == "" then (c, none) else load_found c disk

-- `!ok || entry.UpdatedAt.After(existing.UpdatedAt)`
abbrev pub supersedes : MetaEntry → Option MetaEntry → Bool
supersedes entry none = true
supersedes entry (some existing) = ltb existing.updated_at entry.updated_at

-- `Upsert`; the answer is whether the entry was taken.
unfoldable pub upsert : CrdtStore → MetaEntry → CrdtStore × Bool
upsert c entry =
    if supersedes entry (lookup entry.path c.entries)
    then (record c { entries = insert entry.path entry c.entries }, true)
    else (c, false)

-- `Get`.
unfoldable pub get : CrdtStore → String → Option MetaEntry
get c path = lookup path c.entries

live : Dict String MetaEntry → List MetaEntry
live [] = []
live ((_, e) ∷ es) = let rest = live es in if e.tombstone then rest else e ∷ rest

-- `List`, in the order in which `range` meets the entries.
unfoldable pub list : CrdtStore → List MetaEntry
unfolding live
list c = live c.entries

pub tombstone_of : String → String → ℕ → MetaEntry
tombstone_of path node_id now = record {
  path = path;
  node_id = node_id;
  size = pos 0;
  mod_time = 0;
  updated_at = now;
  tombstone = true;
  checksum = "";
}

-- `Delete`, with the reading of the clock.
unfoldable pub delete : CrdtStore → String → String → ℕ → CrdtStore
unfolding tombstone_of
delete c path node_id now = record c {
  entries = insert path (tombstone_of path node_id now) c.entries;
}

-- What a store that received `es`, in this order, holds.
unfoldable pub merge_all : CrdtStore → List MetaEntry → CrdtStore
merge_all c [] = c
merge_all c (e ∷ es) = merge_all (upsert c e).0 es
