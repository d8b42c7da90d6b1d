-- ===== src/Wal/Log.antt =====
-- internal/reliability/wal/wal.go and checkpoint.go: the log as a state that its methods change. What the
-- operating system does to a write is an argument of each method.
use open_fabric.Common.{
  ℕ, ◌+◌, ◌%◌, String, Bool, true, false, ltb, leb, if◌then◌else◌, Option, none, some, List, [],
  ◌∷◌, ◌++◌, take,
}
use open_fabric.Wal.Entry.{
  Entry, EntryType, task_fail, checkpoint_mark, pending, committed, aborted, Codec, with_checksum,
}
use open_fabric.Wal.Scan.{read_file}
use open_fabric.Wal.Recovery.{Disk, missing, unreadable, holds, recover_pending}

pub data WalError : Type 0 where
  open_failed marshal_payload_failed marshal_entry_failed write_failed sync_failed : WalError

pub data Result {ℓ} (A : Type ℓ) : Type ℓ where
  ok : A → Result A
  err : WalError → Result A

-- `file` is the content of the file at `path`. `attached` is false once the open file is no longer
-- that one, `usable` is false after `Close` or once the buffered writer has met an error, which it
-- keeps. The counters are uint64.
pub record Wal : Type 0 where
  pub file : List ℕ
  pub attached : Bool
  pub usable : Bool
  pub lsn : ℕ
  pub committed_n : ℕ

-- What becomes of one write: it is complete and synced, it stops after some bytes with an error
-- of the writer, or it is complete and the sync fails.
pub data Io : Type 0 where
  synced : Io
  cut : ℕ → Io
  unsynced : Io

abbrev pub uint64 : ℕ → ℕ
uint64 n = n % 18446744073709551616

add_bytes : Wal → List ℕ → Wal
add_bytes w bytes = if w.attached then record w { file = w.file ++ bytes } else w

write_bytes : Io → Wal → List ℕ → Wal × Result (Unit {0})
unfolding add_bytes
write_bytes synced w bytes = (add_bytes w bytes, ok tt)
write_bytes (cut n) w bytes =
    (record (add_bytes w (take n bytes)) { usable = false }, err write_failed)
write_bytes unsynced w bytes = (add_bytes w bytes, err sync_failed)

write_line : Io → Wal → Option (List ℕ) → Wal × Result (Unit {0})
unfolding write_bytes
write_line io w none = (w, err marshal_entry_failed)
write_line io w (some line) =
    if w.usable then write_bytes io w (line ++ 10 ∷ []) else (w, err write_failed)

-- `writeEntry`.
unfoldable pub write_entry : Codec → Io → Wal → Entry → Wal × Result (Unit {0})
unfolding write_line
write_entry c io w e = write_line io w (c.marshal e)

unfoldable pub max_lsn : List Entry → ℕ
max_lsn [] = 0
max_lsn (e ∷ es) = let rest = max_lsn es in if ltb rest e.lsn then e.lsn else rest

-- `recoverLSN`: the scanner's error is not looked at.
unfoldable pub recover_lsn : Codec → List ℕ → ℕ
recover_lsn c file = max_lsn (read_file c file).0

open_file : Codec → List ℕ → Wal
open_file c file = record {
  file = file;
  attached = true;
  usable = true;
  lsn = recover_lsn c file;
  committed_n = 0;
}

-- `Open`, which makes a missing file.
unfoldable pub open_wal : Codec → Disk → Result Wal
unfolding open_file
open_wal c missing = ok (open_file c [])
open_wal c unreadable = err open_failed
open_wal c (holds file) = ok (open_file c file)

-- The payload that `Append` is given: `nil`, or a value that `json.Marshal` takes or refuses.
pub data Payload : Type 0 where
  nil refused : Payload
  marshals : List ℕ → Payload

abbrev payload_bytes : Payload → Option (List ℕ)
payload_bytes nil = some []
payload_bytes refused = none
payload_bytes (marshals bs) = some bs

next_lsn : Wal → Wal
next_lsn w = record w { lsn = uint64 (w.lsn + 1) }

abbrev pub pending_entry : Codec → ℕ → EntryType → String → List ℕ → ℕ → Entry
pending_entry c lsn kind entity payload now = with_checksum c (record {
  lsn = lsn;
  kind = kind;
  status = pending;
  timestamp = now;
  entity_id = entity;
  payload = payload;
  checksum = 0;
})

abbrev pub commit_entry : Codec → ℕ → ℕ → String → ℕ → Entry
commit_entry c own lsn entity now = with_checksum c (record {
  lsn = own;
  kind = checkpoint_mark;
  status = committed;
  timestamp = now;
  entity_id = entity;
  payload = c.sprintf_committed lsn;
  checksum = 0;
})

abbrev pub abort_entry : Codec → ℕ → ℕ → String → String → ℕ → Entry
abort_entry c own lsn entity reason now = with_checksum c (record {
  lsn = own;
  kind = task_fail;
  status = aborted;
  timestamp = now;
  entity_id = entity;
  payload = c.sprintf_aborted lsn reason;
  checksum = 0;
})

with_lsn : ℕ → Wal × Result (Unit {0}) → Wal × Result ℕ
with_lsn lsn (w, ok u) = (w, ok lsn)
with_lsn lsn (w, err e) = (w, err e)

append_payload : Codec → Io → Wal → EntryType → String → Option (List ℕ) → ℕ → Wal × Result ℕ
unfolding with_lsn write_entry
append_payload c io w kind entity none now = (w, err marshal_payload_failed)
append_payload c io w kind entity (some bs) now =
    with_lsn w.lsn (write_entry c io w (pending_entry c w.lsn kind entity bs now))

-- `Append`: the number is taken before anything can fail.
unfoldable pub append : Codec → Io → Wal → EntryType → String → Payload → ℕ → Wal × Result ℕ
unfolding next_lsn append_payload
append c io w kind entity payload now =
    append_payload c io (next_lsn w) kind entity (payload_bytes payload) now

abbrev pub checkpoint_interval : ℕ
checkpoint_interval = 1000

-- The last of the result says that a checkpoint was started, which runs on its own.
count_commit : Wal × Result (Unit {0}) → Wal × Result (Unit {0}) × Bool
count_commit (w, err e) = (w, err e, false)
count_commit (w, ok u) =
    let n = uint64 (w.committed_n + 1) in
    if leb checkpoint_interval n
    then (record w { committed_n = 0 }, ok tt, true)
    else (record w { committed_n = n }, ok tt, false)

-- `Commit`.
unfoldable pub commit : Codec → Io → Wal → ℕ → String → ℕ → Wal × Result (Unit {0}) × Bool
unfolding next_lsn count_commit write_entry
commit c io w lsn entity now =
    let v = next_lsn w in count_commit (write_entry c io v (commit_entry c v.lsn lsn entity now))

-- `Abort`.
unfoldable pub abort : Codec → Io → Wal → ℕ → String → String → ℕ → Wal × Result (Unit {0})
unfolding next_lsn write_entry
abort c io w lsn entity reason now =
    let v = next_lsn w in write_entry c io v (abort_entry c v.lsn lsn entity reason now)

-- `Close`.
unfoldable pub close : Wal → Wal
close w = record w { usable = false }

-- What becomes of the new file of a checkpoint: it does not come to replace the log, it does and
-- cannot be opened, or all goes well.
pub data Replace : Type 0 where
  not_replaced not_reopened replaced : Replace

-- The lines written for the pending entries; `none` if one cannot be marshalled.
unfoldable pub compacted : Codec → List Entry → Option (List ℕ)
compacted c [] = some []
compacted c (e ∷ es) =
    let rest = compacted c es in
    elim (c.marshal e) [
      | none ↦ none
      | some line ↦ elim rest [ none ↦ none | some bs ↦ some ((line ++ 10 ∷ []) ++ bs) ]
    ]

replace_file : Replace → Wal → Option (List ℕ) → Wal
replace_file io w none = w
replace_file not_replaced w (some bs) = w
replace_file not_reopened w (some bs) = record w { file = bs; attached = false }
replace_file replaced w (some bs) = record w { file = bs; attached = true; usable = true }

-- `checkpoint`.
unfoldable pub checkpoint : Codec → Replace → Wal → Wal
unfolding replace_file
checkpoint c io w =
    let found = recover_pending c (holds w.file) in
    if found.failed then w else replace_file io w (compacted c found.entries)
