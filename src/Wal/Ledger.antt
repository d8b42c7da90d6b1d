-- ===== src/Wal/Ledger.antt =====
-- The contract of the log: the ledger that its calls keep, and when a log stands for one.
use open_fabric.Common.{ℕ, suc, ◌<◌, ◌≤◌, ◌≡◌, true, List, [], ◌∷◌, ◌++◌, String, All}
use open_fabric.Wal.Entry.{Entry, EntryType, Codec}
use open_fabric.Wal.Recovery.{pending_of, settled, contains}
use open_fabric.Wal.Log.{
  Wal, synced, replaced, append, commit, abort, checkpoint, marshals, pending_entry, commit_entry,
  abort_entry,
}
use open_fabric.Wal.Image.{Fits, image, IsWritable}
use open_fabric.Wal.Settled.{remove}

-- The calls of a client whose writes all succeed, and the compaction that runs between them.
pub data Call : Type 0 where
  appends : EntryType → String → List ℕ → ℕ → Call
  commits : ℕ → String → ℕ → Call
  aborts : ℕ → String → String → ℕ → Call
  compacts : Call

unfoldable pub perform : Codec → Wal → Call → Wal
unfolding append commit abort checkpoint
perform c w (appends kind entity payload now) =
    (append c synced w kind entity (marshals payload) now).0
perform c w (commits lsn entity now) = (commit c synced w lsn entity now).0
perform c w (aborts lsn entity reason now) = (abort c synced w lsn entity reason now).0
perform c w compacts = checkpoint c replaced w

unfoldable pub perform_all : Codec → Wal → List Call → Wal
perform_all c w [] = w
perform_all c w (k ∷ ks) = perform_all c (perform c w k) ks

-- What the log promises: the last number given, and the entries begun and not settled.
pub record Ledger : Type 0 where
  pub last : ℕ
  pub begun : List Entry

unfoldable pub post : Codec → Ledger → Call → Ledger
unfolding remove
post c l (appends kind entity payload now) = record {
  last = suc l.last;
  begun = l.begun ++ pending_entry c (suc l.last) kind entity payload now ∷ [];
}
post c l (commits lsn entity now) = record { last = suc l.last; begun = remove lsn l.begun }
post c l (aborts lsn entity reason now) = record { last = suc l.last; begun = remove lsn l.begun }
post c l compacts = l

unfoldable pub post_all : Codec → Ledger → List Call → Ledger
post_all c l [] = l
post_all c l (k ∷ ks) = post_all c (post c l k) ks

-- What a call may ask for after `last`: an entry that JSON writes as it is in a line that the
-- scanner can hold, and to settle a number that has been given.
abbrev pub Permitted : Codec → ℕ → Call → Type 0
Permitted c last (appends kind entity payload now) =
    IsWritable c (pending_entry c (suc last) kind entity payload now)
Permitted c last (commits lsn entity now) =
    IsWritable c (commit_entry c (suc last) lsn entity now) × (1 ≤ lsn) × (lsn ≤ last)
Permitted c last (aborts lsn entity reason now) =
    IsWritable c (abort_entry c (suc last) lsn entity reason now)
    × (c.plain reason ≡ true)
    × (1 ≤ lsn)
    × (lsn ≤ last)
Permitted c last compacts = Unit

abbrev pub last_after : ℕ → Call → ℕ
last_after last compacts = last
last_after last _ = suc last

-- Each call is permitted, and the numbers stay below 2^64.
abbrev pub AllPermitted : Codec → ℕ → List Call → Type 0
AllPermitted c last [] = Unit
AllPermitted c last (k ∷ ks) =
    (suc last < 18446744073709551616) × Permitted c last k × AllPermitted c (last_after last k) ks

-- The log `w` holds the entries `es` and stands for the ledger `l`.
pub record StandsFor (c : Codec) (w : Wal) (l : Ledger) : Type 0 where
  pub entries : List Entry
  pub file_eq : w.file ≡ image c entries
  pub all_fit : All (Fits c) entries
  pub open_file : (w.attached ≡ true) × (w.usable ≡ true)
  pub number : w.lsn ≡ l.last
  pub begun_eq : l.begun ≡ pending_of c entries
  pub settled_below : (n : ℕ) → contains n (settled c entries) ≡ true → n ≤ l.last
