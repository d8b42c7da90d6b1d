-- ===== src/Wal/Compaction.antt =====
-- checkpoint.go: what a compaction keeps, and what it forgets.
use open_fabric.Common.{
  ℕ, ◌≡◌, refl, sym, ap, ◌∙◌, true, false, not, ◌&&◌, some, List, [], ◌∷◌, arith, String, All,
  Bool-cases, inl, inr,
}
use open_fabric.Wal.Entry.{Entry, EntryType, Codec}
use open_fabric.Wal.Recovery.{
  holds, recover_pending, pending_of, settled, settle, contains, unsettled, is_pending,
}
use open_fabric.Wal.Log.{
  Wal, ok, synced, Replace, not_replaced, not_reopened, replaced, compacted, checkpoint, open_wal,
  max_lsn, recover_lsn, append, write_entry, marshals, pending_entry,
}
use open_fabric.Wal.Scan.{read_file, scan, raw_lines, read_lines}
use open_fabric.Wal.Image.{Fits, image, read_file-image_nil}

-- Every entry that recovery reports is pending.
unsettled-pending :
    (done : List ℕ) (es : List Entry) → All (λ e. is_pending e.status ≡ true) (unsettled done es)
unfolding unsettled
unsettled-pending done [] = tt
unsettled-pending done (e ∷ es) = ground (arith, unsettled-pending done es)

settled-pending :
    (c : Codec) (es : List Entry) → All (λ e. is_pending e.status ≡ true) es → settled c es ≡ []
unfolding settled settle
settled-pending c [] h = refl
settled-pending c (e ∷ es) h = rw (h.0, settled-pending c es h.1)

unsettled-nothing :
    (es : List Entry) → All (λ e. is_pending e.status ≡ true) es → unsettled [] es ≡ es
unfolding unsettled contains
unsettled-nothing [] h = refl
unsettled-nothing (e ∷ es) h = rw (h.0, unsettled-nothing es h.1)

pub settled-pending_of : (c : Codec) (es : List Entry) → settled c (pending_of c es) ≡ []
unfolding pending_of
settled-pending_of c es = settled-pending c _ (unsettled-pending (settled c es) es)

pub pending_of-pending_of :
    (c : Codec) (es : List Entry) → pending_of c (pending_of c es) ≡ pending_of c es
unfolding pending_of
pending_of-pending_of c es =
    let all = unsettled-pending (settled c es) es in
    ap (λ done. unsettled done (unsettled (settled c es) es)) (settled-pending c _ all)
    ∙ unsettled-nothing _ all

unsettled-Fits :
    (c : Codec) (done : List ℕ) (es : List Entry)
    → All (Fits c) es
    → All (Fits c) (unsettled done es)
unfolding unsettled
unsettled-Fits c done [] h = tt
unsettled-Fits c done (e ∷ es) h =
    elim (Bool-cases (is_pending e.status && not (contains e.lsn done))) [
      | inl keep ↦ rw (unsettled, keep) (h.0, unsettled-Fits c done es h.1)
      | inr drop ↦ rw (unsettled, drop) (unsettled-Fits c done es h.1)
    ]

pub pending_of-Fits :
    (c : Codec) (es : List Entry) → All (Fits c) es → All (Fits c) (pending_of c es)
unfolding pending_of
pending_of-Fits c es h = unsettled-Fits c (settled c es) es h

compacted-image :
    (c : Codec) (es : List Entry) → All (Fits c) es → compacted c es ≡ some (image c es)
unfolding compacted
compacted-image c [] h = refl
compacted-image c (e ∷ es) h = ground (arith, h.0.written, compacted-image c es h.1)

-- The file that a compaction makes of a well-written one.
pub checkpoint_lem :
    (c : Codec) (w : Wal) (es : List Entry)
    → w.file ≡ image c es
    → All (Fits c) es
    → checkpoint c replaced w
      ≡ record w { file = image c (pending_of c es); attached = true; usable = true }
unfolding checkpoint recover_pending
checkpoint_lem c w es e h =
    let read = ap (read_file c) e ∙ read_file-image_nil c es h in
    ground (arith, read, compacted-image c (pending_of c es) (pending_of-Fits c es h))

pub image_recovers :
    (c : Codec) (es : List Entry)
    → All (Fits c) es
    → recover_pending c (holds (image c es)) ≡ record { entries = pending_of c es; failed = false }
unfolding recover_pending
image_recovers c es h = rw (read_file-image_nil c es h)

checkpoint-not_replaced : (c : Codec) (w : Wal) → checkpoint c not_replaced w ≡ w
unfolding checkpoint
checkpoint-not_replaced c w = ground arith

checkpoint-file :
    (c : Codec) (w : Wal) → (checkpoint c not_reopened w).file ≡ (checkpoint c replaced w).file
unfolding checkpoint
checkpoint-file c w = ground arith

replaced_recovers :
    (c : Codec) (w : Wal) (es : List Entry)
    → w.file ≡ image c es
    → All (Fits c) es
    → recover_pending c (holds (checkpoint c replaced w).file) ≡ recover_pending c (holds w.file)
replaced_recovers c w es e h =
    ap (λ (v : Wal). recover_pending c (holds v.file)) (checkpoint_lem c w es e h)
    ∙ image_recovers c (pending_of c es) (pending_of-Fits c es h)
    ∙ ap (λ xs. record { entries = xs; failed = false }) (pending_of-pending_of c es)
    ∙ sym (ap (λ f. recover_pending c (holds f)) e ∙ image_recovers c es h)

-- A compaction of a well-written file, whether or not its new file comes into place, leaves the
-- recovery of the log as it was: the same entries and no error.
pub checkpoint-keeps_pending :
    (c : Codec) (w : Wal) (io : Replace) (es : List Entry)
    → w.file ≡ image c es
    → All (Fits c) es
    → (recover_pending c (holds (checkpoint c io w).file) ≡ recover_pending c (holds w.file))
      × (recover_pending c (holds w.file) ≡ record { entries = pending_of c es; failed = false })
checkpoint-keeps_pending c w not_replaced es e h = (
  ap (λ (v : Wal). recover_pending c (holds v.file)) (checkpoint-not_replaced c w),
  ap (λ f. recover_pending c (holds f)) e ∙ image_recovers c es h,
)
checkpoint-keeps_pending c w not_reopened es e h = (
  ap (λ f. recover_pending c (holds f)) (checkpoint-file c w) ∙ replaced_recovers c w es e h,
  ap (λ f. recover_pending c (holds f)) e ∙ image_recovers c es h,
)
checkpoint-keeps_pending c w replaced es e h =
    (replaced_recovers c w es e h, ap (λ f. recover_pending c (holds f)) e ∙ image_recovers c es h)

-- A compaction of a well-written file forgets the numbers of settled entries: if all are settled,
-- then the log that is opened after it starts at 0, and an entry that is appended next and can be
-- written gets the number 1.
pub checkpoint-reuses_lsn :
    (c : Codec) (w : Wal) (es : List Entry) (kind : EntryType) (entity : String) (payload : List ℕ)
    (now : ℕ)
    → w.file ≡ image c es
    → All (Fits c) es
    → pending_of c es ≡ []
    → Fits c (pending_entry c 1 kind entity payload now)
    → (v : Wal) × (open_wal c (holds (checkpoint c replaced w).file) ≡ ok v)
      × (v.lsn ≡ 0)
      × ((append c synced v kind entity (marshals payload) now).1 ≡ ok 1)
unfolding open_wal recover_lsn read_file scan raw_lines read_lines max_lsn append write_entry
checkpoint-reuses_lsn c w es kind entity payload now e h none_left f =
    let empty : (checkpoint c replaced w).file ≡ [] =
      ap (λ (v : Wal). v.file) (checkpoint_lem c w es e h) ∙ ap (image c) none_left in
    (
      record { file = []; attached = true; usable = true; lsn = 0; committed_n = 0 },
      rw empty,
      refl,
      ground (arith, f.written),
    )
