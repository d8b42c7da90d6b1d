-- ===== src/Wal/Torn.antt =====
-- A crash in the middle of a write leaves bytes with no line feed at the end of the file, and the
-- next entry is written right behind them.
use open_fabric.Common.{
  ℕ, ◌+◌, ◌<◌, ◌≡◌, ◌≢◌, refl, sym, ap, ◌∙◌, Bool, true, false, lt→ltb, none, List, [], ◌∷◌, ◌++◌,
  All, All-append, length, arith, String,
}
use mathlib.Core.List.{append_assoc, append-nil}
use open_fabric.Wal.Entry.{Entry, EntryType, Codec, EndsWell}
use open_fabric.Wal.Scan.{raw_lines, scan, read_line, read_lines, read_file, max_line}
use open_fabric.Wal.Recovery.{holds, recover_pending, pending_of}
use open_fabric.Wal.Log.{
  Wal, Result, ok, synced, append, write_entry, marshals, pending_entry, uint64,
}
use open_fabric.Wal.Image.{Fits, image, read_file-image, raw_lines-line, drop_cr_lem}

EndsWell-append : (xs ys : List ℕ) → ys ≢ [] → EndsWell ys → EndsWell (xs ++ ys)
EndsWell-append [] ys n h = h
EndsWell-append (x ∷ []) [] n h = absurd (n refl)
EndsWell-append (x ∷ []) (y ∷ ys) n h = h
EndsWell-append (x ∷ z ∷ xs) ys n h = EndsWell-append (z ∷ xs) ys n h

read_bad : (c : Codec) (line : List ℕ) → c.unmarshal line ≡ none → read_line c line ≡ none
unfolding read_line
read_bad c [] u = refl
read_bad c (b ∷ bs) u = rw u

raw_lines-nil : raw_lines [] ≡ []
unfolding raw_lines
raw_lines-nil = refl

append_lem :
    (c : Codec) (w : Wal) (kind : EntryType) (entity : String) (payload : List ℕ) (now : ℕ)
    → (w.attached ≡ true) × (w.usable ≡ true)
    → (f : Fits c (pending_entry c (uint64 (w.lsn + 1)) kind entity payload now))
    → append c synced w kind entity (marshals payload) now ≡ (
      record w { lsn = uint64 (w.lsn + 1); file = w.file ++ (f.line ++ 10 ∷ []) },
      ok (uint64 (w.lsn + 1)),
    )
unfolding append write_entry
append_lem c w kind entity payload now o f = ground (arith, f.written)

-- One line that does not parse, alone in a file.
read_file-bad :
    (c : Codec) (line : List ℕ)
    → All (λ b. b ≢ 10) line
    → EndsWell line
    → length line < max_line
    → c.unmarshal line ≡ none
    → read_file c (line ++ 10 ∷ []) ≡ ([], false)
unfolding read_file scan read_lines
read_file-bad c line h e s u = rw (
  raw_lines-line line [] h,
  raw_lines-nil,
  lt→ltb (length line) max_line s,
  drop_cr_lem line e,
  read_bad c line u,
)

-- The file is that of some entries with a torn line behind them. An `Append` whose write succeeds,
-- and whose entry is in order, returns its number as written; but if JSON cannot read the torn bytes
-- with the new line behind them, recovery reports the old entries alone, with no error: the new
-- entry is lost.
pub torn_tail-loses_append :
    (c : Codec) (w : Wal) (es : List Entry) (torn : List ℕ) (kind : EntryType) (entity : String)
    (payload : List ℕ) (now : ℕ)
    → w.file ≡ image c es ++ torn
    → (w.attached ≡ true) × (w.usable ≡ true)
    → All (Fits c) es
    → All (λ b. b ≢ 10) torn
    → (f : Fits c (pending_entry c (uint64 (w.lsn + 1)) kind entity payload now))
    → length (torn ++ f.line) < max_line
    → c.unmarshal (torn ++ f.line) ≡ none
    → ((append c synced w kind entity (marshals payload) now).1 ≡ ok (uint64 (w.lsn + 1)))
      × (recover_pending c (holds (append c synced w kind entity (marshals payload) now).0.file)
          ≡ record { entries = pending_of c es; failed = false })
unfolding recover_pending
torn_tail-loses_append c w es torn kind entity payload now e o h t f s u =
    let wrote = append_lem c w kind entity payload now o f in
    let file : (w.file ++ (f.line ++ 10 ∷ []) ≡ image c es ++ ((torn ++ f.line) ++ 10 ∷ [])) =
      ap (λ xs. xs ++ (f.line ++ 10 ∷ [])) e
      ∙ append_assoc (image c es) torn (f.line ++ 10 ∷ [])
      ∙ ap (◌++◌ (image c es)) (sym (append_assoc torn f.line (10 ∷ []))) in
    let read =
      ap (read_file c) file
      ∙ read_file-image c es ((torn ++ f.line) ++ 10 ∷ []) h
      ∙ ap (λ (r : List Entry × Bool). (es ++ r.0, r.1))
          (read_file-bad c (torn ++ f.line) (All-append _ torn f.line t f.one_line.1)
            (EndsWell-append torn f.line f.one_line.0 f.one_line.2) s u)
      ∙ ap (λ xs. (xs, false)) (append-nil es) in
    (ap (λ (r : Wal × Result ℕ). r.1) wrote, rw (wrote, read))
