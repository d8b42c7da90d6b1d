-- ===== src/Wal/Tests.antt =====
-- A small codec that keeps the laws, runs of the log under it, and the theorems of the log at
-- concrete inputs.
use open_fabric.Common.{
  ℕ, zero, suc, ◌+◌, ◌-◌, ◌*◌, string_eq, ◌%◌, ◌<◌, ◌≤◌, ◌≡◌, ◌≢◌, refl, subst, Bool, true, false,
  ◌&&◌, leb, eqb, if◌then◌else◌, Option, none, some, List, [], ◌∷◌, ◌++◌, map, All, length, arith,
  ◌==◌,
}
use mathlib.Core.Option.{some-injective}
use open_fabric.Wal.Recovery.{
  holds, recover_pending, pending_of, settled, settle, contains, unsettled,
}
use open_fabric.Wal.Log.{
  Wal, ok, synced, replaced, marshals, append, checkpoint, open_wal, pending_entry, commit_entry,
  max_lsn,
}
use open_fabric.Wal.Image.{Fits, image, IsWritable, writable-Fits, with_checksum-checked}
use open_fabric.Wal.Ledger.{
  Call, appends, commits, compacts, StandsFor, perform_all, post, post_all,
}
use open_fabric.Wal.Refinement.{recover_pending-ledger, open_wal-image}
use open_fabric.Wal.Compaction.{checkpoint-keeps_pending}
use open_fabric.Wal.Torn.{torn_tail-loses_append}
use open_fabric.Wal.Entry.{
  Entry, EntryType, task_submit, task_fail, checkpoint_mark, EntryStatus, pending, committed,
  aborted, Codec, compute_checksum, IsCodec, IsLine, EndsWell,
}

-- A number as one byte that is neither a marker, a line feed nor a carriage return.
abbrev shift : ℕ → ℕ
shift n = n + 14

abbrev status_code : EntryStatus → ℕ
status_code pending = 0
status_code committed = 1
status_code aborted = 2

abbrev status_of : ℕ → EntryStatus
status_of zero = pending
status_of (suc zero) = committed
status_of (suc (suc n)) = aborted

abbrev kind_of : EntryStatus → EntryType
kind_of pending = task_submit
kind_of committed = checkpoint_mark
kind_of aborted = task_fail

abbrev usual_kind : EntryStatus → EntryType → Bool
usual_kind pending task_submit = true
usual_kind committed checkpoint_mark = true
usual_kind aborted task_fail = true
usual_kind _ _ = false

toy_line : Entry → List ℕ
toy_line e = 0 ∷ map shift (e.lsn ∷ status_code e.status ∷ e.timestamp ∷ e.checksum ∷ e.payload)

all_high : List ℕ → Bool
all_high [] = true
all_high (b ∷ bs) = leb 14 b && all_high bs

toy_unmarshal : List ℕ → Option Entry
toy_unmarshal (z ∷ a ∷ s ∷ t ∷ k ∷ p) =
    if eqb z 0 && all_high (a ∷ s ∷ t ∷ k ∷ p)
    then some (record {
      lsn = a - 14;
      kind = kind_of (status_of (s - 14));
      status = status_of (s - 14);
      timestamp = t - 14;
      entity_id = "t1";
      payload = map (λ b. b - 14) p;
      checksum = k - 14;
    })
    else none
toy_unmarshal _ = none

toy_refs : List ℕ → Option (ℕ × ℕ)
toy_refs (x ∷ n ∷ []) = some (if eqb x 1 then n else 0, if eqb x 1 then 0 else n)
toy_refs _ = none

toy_crc : List ℕ → ℕ
toy_crc [] = 0
toy_crc (b ∷ bs) = (b + 3 * toy_crc bs) % 4294967296

abbrev toy : Codec
toy = record {
  marshal = λ e. some (toy_line e);
  unmarshal = toy_unmarshal;
  unmarshal_refs = toy_refs;
  crc32 = toy_crc;
  sprintf_committed = λ n. 1 ∷ n ∷ [];
  sprintf_aborted = λ n reason. 2 ∷ n ∷ [];
  writable = λ e. usual_kind e.status e.kind && e.entity_id == "t1";
  plain = λ reason. true;
}

all_high-shift : (p : List ℕ) → all_high (map shift p) ≡ true
unfolding all_high
all_high-shift [] = refl
all_high-shift (b ∷ bs) = ground (arith, all_high-shift bs)

unshift-shift : (p : List ℕ) → map (λ b. b - 14) (map shift p) ≡ p
unshift-shift [] = refl
unshift-shift (b ∷ bs) = ground (arith, unshift-shift bs)

shift-line : (p : List ℕ) → All (λ b. b ≢ 10) (map shift p) × EndsWell (map shift p)
shift-line [] = (tt, tt)
shift-line (b ∷ []) = ((omega arith, tt), omega arith)
shift-line (b ∷ d ∷ bs) = let (a, e) = shift-line (d ∷ bs) in ((omega arith, a), e)

toy-read_back : (e : Entry) → toy.writable e ≡ true → toy_unmarshal (toy_line e) ≡ some e
unfolding toy_line toy_unmarshal all_high
toy-read_back e h =
    ground (
      arith,
      all_high-shift e.payload,
      unshift-shift e.payload,
      string_eq.same_iff e.entity_id "t1",
    )

toy-IsLine : (e : Entry) → IsLine (toy_line e)
unfolding toy_line
toy-IsLine e =
    let (no_feed, end) =
      shift-line (e.lsn ∷ status_code e.status ∷ e.timestamp ∷ e.checksum ∷ e.payload) in
    ((λ x. cc), (omega arith, no_feed), end)

toy-IsCodec : IsCodec toy
unfolding toy_refs
toy-IsCodec = record {
  round_trip = λ e h. (toy_line e, refl, toy-read_back e h, toy-IsLine e);
  committed_refs = λ n. refl;
  aborted_refs = λ n reason p. refl;
}

toy-IsWritable :
    (e : Entry) → toy.writable e ≡ true → length (toy_line e) < 1048576 → IsWritable toy e
toy-IsWritable e h s = (h, λ line m. subst (λ l. length l < 1048576) (some-injective _ _ m) s)

toy-Fits :
    (e : Entry)
    → e.checksum ≡ compute_checksum toy e
    → toy.writable e ≡ true
    → length (toy_line e) < 1048576
    → Fits toy e
toy-Fits e k h s = writable-Fits toy toy-IsCodec e k (toy-IsWritable e h s)

abbrev empty_log : Wal
empty_log = record { file = []; attached = true; usable = true; lsn = 0; committed_n = 0 }

empty_log-StandsFor : StandsFor toy empty_log (record { last = 0; begun = [] })
unfolding pending_of unsettled settled contains
empty_log-StandsFor = record {
  entries = [];
  file_eq = refl;
  all_fit = tt;
  open_file = (refl, refl);
  number = refl;
  begun_eq = refl;
  settled_below = λ n h. cc;
}

abbrev history : List Call
history =
    appends task_submit "t1" (5 ∷ []) 7
    ∷ appends task_submit "t1" [] 8
    ∷ commits 1 "t1" 9
    ∷ compacts
    ∷ appends task_submit "t1" (6 ∷ []) 10
    ∷ []

recover_pending-ledger_example :
    recover_pending toy (holds (perform_all toy empty_log history).file) ≡ record {
      entries =
          pending_entry toy 2 task_submit "t1" [] 8
          ∷ pending_entry toy 4 task_submit "t1" (6 ∷ []) 10
          ∷ [];
      failed = false;
    }
unfolding toy_line post_all post
recover_pending-ledger_example =
    recover_pending-ledger toy toy-IsCodec empty_log (record { last = 0; begun = [] }) history
      empty_log-StandsFor
      (
        omega arith,
        toy-IsWritable (pending_entry toy 1 task_submit "t1" (5 ∷ []) 7) refl (omega arith),
        (
          omega arith,
          toy-IsWritable (pending_entry toy 2 task_submit "t1" [] 8) refl (omega arith),
          (
            omega arith,
            (
              toy-IsWritable (commit_entry toy 3 1 "t1" 9) refl (omega arith),
              omega arith,
              omega arith,
            ),
            (
              omega arith,
              tt,
              (
                omega arith,
                toy-IsWritable (pending_entry toy 4 task_submit "t1" (6 ∷ []) 10) refl
                    (omega arith),
                tt,
              ),
            ),
          ),
        ),
      )

abbrev first_entry : Entry
first_entry = pending_entry toy 1 task_submit "t1" (5 ∷ []) 7

first_entry-Fits : Fits toy first_entry
unfolding toy_line
first_entry-Fits = toy-Fits first_entry (with_checksum-checked toy _) refl (omega arith)

abbrev its_commit : Entry
its_commit = commit_entry toy 2 1 "t1" 9

its_commit-Fits : Fits toy its_commit
unfolding toy_line
its_commit-Fits = toy-Fits its_commit (with_checksum-checked toy _) refl (omega arith)

open_wal-image_example :
    (w : Wal) × (open_wal toy (holds (image toy (first_entry ∷ []))) ≡ ok w)
    × StandsFor toy w
        (record { last = max_lsn (first_entry ∷ []); begun = pending_of toy (first_entry ∷ []) })
    × All (λ e. e.lsn ≤ w.lsn) (first_entry ∷ [])
unfolding settled settle contains
open_wal-image_example = open_wal-image toy (first_entry ∷ []) (first_entry-Fits, tt) (λ n h. cc)

abbrev full_log : Wal
full_log = record {
  file = image toy (first_entry ∷ its_commit ∷ []);
  attached = true;
  usable = true;
  lsn = 2;
  committed_n = 1;
}

checkpoint-keeps_pending_example :
    (recover_pending toy (holds (checkpoint toy replaced full_log).file)
      ≡ recover_pending toy (holds full_log.file))
    × (recover_pending toy (holds full_log.file)
        ≡ record { entries = pending_of toy (first_entry ∷ its_commit ∷ []); failed = false })
checkpoint-keeps_pending_example =
    checkpoint-keeps_pending toy full_log replaced (first_entry ∷ its_commit ∷ []) refl
      (first_entry-Fits, (its_commit-Fits, tt))

-- The first bytes of an entry whose write a crash cut.
abbrev torn_log : Wal
torn_log = record {
  file = image toy (first_entry ∷ []) ++ (0 ∷ 16 ∷ []);
  attached = true;
  usable = true;
  lsn = 1;
  committed_n = 0;
}

abbrev next_entry : Entry
next_entry = pending_entry toy 2 task_submit "t1" (6 ∷ []) 8

torn_tail-loses_append_example :
    ((append toy synced torn_log task_submit "t1" (marshals (6 ∷ [])) 8).1 ≡ ok 2)
    × (recover_pending toy
          (holds (append toy synced torn_log task_submit "t1" (marshals (6 ∷ [])) 8).0.file)
        ≡ record { entries = pending_of toy (first_entry ∷ []); failed = false })
unfolding toy_line toy_unmarshal all_high
torn_tail-loses_append_example =
    torn_tail-loses_append toy torn_log (first_entry ∷ []) (0 ∷ 16 ∷ []) task_submit "t1" (6 ∷ []) 8
      refl (refl, refl) (first_entry-Fits, tt) (omega arith)
      (record {
        line = toy_line next_entry;
        written = refl;
        read_back = toy-read_back next_entry refl;
        one_line = toy-IsLine next_entry;
        short = omega arith;
        checked = with_checksum-checked toy _;
      })
      (omega arith) refl
