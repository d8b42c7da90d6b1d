-- ===== src/Wal/Image.antt =====
-- The file that a list of well-written entries makes, and what the scanner reads from it.
use open_fabric.Common.{
  ℕ, ◌<◌, ◌≡◌, ◌≢◌, refl, sym, ap, ◌∙◌, true, false, lt→ltb, Option, none, some, List, [], ◌∷◌,
  ◌++◌, All, length, arith, eqb-ne,
}
use mathlib.Core.List.{append_assoc, append-nil}
use open_fabric.Wal.Entry.{Entry, Codec, IsCodec, with_checksum, IsLine, EndsWell, compute_checksum}
use open_fabric.Wal.Scan.{raw_lines, drop_cr, scan, read_line, read_lines, read_file, max_line}

-- The entry is written as one line that reads back, is short enough for the scanner, and carries
-- its checksum.
pub record Fits (c : Codec) (e : Entry) : Type 0 where
  pub line : List ℕ
  pub written : c.marshal e ≡ some line
  pub read_back : c.unmarshal line ≡ some e
  pub one_line : IsLine line
  pub short : length line < max_line
  pub checked : e.checksum ≡ compute_checksum c e

abbrev line_of : Option (List ℕ) → List ℕ
line_of none = []
line_of (some bs) = bs ++ 10 ∷ []

-- The file of a list of entries.
abbrev pub image : Codec → List Entry → List ℕ
image c [] = []
image c (e ∷ es) = line_of (c.marshal e) ++ image c es

pub image-append : (c : Codec) (es fs : List Entry) → image c (es ++ fs) ≡ image c es ++ image c fs
image-append c [] fs = refl
image-append c (e ∷ es) fs =
    rw (image-append c es fs) (sym (append_assoc (line_of (c.marshal e)) (image c es) (image c fs)))

-- One complete line, and what follows it.
pub raw_lines-line :
    (line rest : List ℕ)
    → All (λ b. b ≢ 10) line
    → raw_lines (line ++ 10 ∷ rest) ≡ line ∷ raw_lines rest
unfolding raw_lines
raw_lines-line [] rest h = refl
raw_lines-line (b ∷ bs) rest h = rw (eqb-ne b 10 h.0, raw_lines-line bs rest h.1)

pub drop_cr_lem : (line : List ℕ) → EndsWell line → drop_cr line ≡ line
unfolding drop_cr
drop_cr_lem [] h = refl
drop_cr_lem (b ∷ []) h = rw (eqb-ne b 13 h)
drop_cr_lem (b ∷ c ∷ bs) h = ap (◌∷◌ b) (drop_cr_lem (c ∷ bs) h)

read_line_lem :
    (c : Codec) (e : Entry) (line : List ℕ)
    → line ≢ []
    → c.unmarshal line ≡ some e
    → e.checksum ≡ compute_checksum c e
    → read_line c line ≡ some e
unfolding read_line
read_line_lem c e [] h u k = absurd (h refl)
read_line_lem c e (b ∷ bs) h u k = ground arith

read_file-line :
    (c : Codec) (e : Entry) (f : Fits c e) (rest : List ℕ)
    → read_file c (f.line ++ 10 ∷ rest) ≡ (e ∷ (read_file c rest).0, (read_file c rest).1)
unfolding read_file scan read_lines
read_file-line c e f rest = rw (
  raw_lines-line f.line rest f.one_line.1,
  lt→ltb (length f.line) max_line f.short,
  drop_cr_lem f.line f.one_line.2,
  read_line_lem c e f.line f.one_line.0 f.read_back f.checked,
)

-- What is read from the file of some entries, with more bytes behind: the entries, and what is read
-- from the other bytes alone.
pub read_file-image :
    (c : Codec) (es : List Entry) (rest : List ℕ)
    → All (Fits c) es
    → read_file c (image c es ++ rest) ≡ (es ++ (read_file c rest).0, (read_file c rest).1)
read_file-image c [] rest h = refl
read_file-image c (e ∷ es) rest h =
    rw
      (
        h.0.written,
        append_assoc (h.0.line ++ 10 ∷ []) (image c es) rest,
        append_assoc h.0.line (10 ∷ []) (image c es ++ rest),
      )
      (rw (read_file-line c e h.0 (image c es ++ rest), read_file-image c es rest h.1))

-- The file of some entries reads as these entries, with no error.
pub read_file-image_nil :
    (c : Codec) (es : List Entry) → All (Fits c) es → read_file c (image c es) ≡ (es, false)
read_file-image_nil c es h =
    ap (read_file c) (sym (append-nil (image c es)))
    ∙ read_file-image c es [] h
    ∙ unfold read_file scan raw_lines read_lines in rw (append-nil es)

pub image-append_one :
    (c : Codec) (es : List Entry) (e : Entry) (f : Fits c e)
    → image c (es ++ e ∷ []) ≡ image c es ++ (f.line ++ 10 ∷ [])
image-append_one c es e f =
    image-append c es (e ∷ []) ∙ ap (◌++◌ (image c es)) (append-nil _ ∙ ap line_of f.written)

-- JSON writes the entry as it is, and in a line that the scanner can hold.
abbrev pub IsWritable : Codec → Entry → Type 0
IsWritable c e =
    (c.writable e ≡ true) × ((line : List ℕ) → c.marshal e ≡ some line → length line < max_line)

pub writable-Fits :
    (c : Codec) (codec : IsCodec c) (e : Entry)
    → e.checksum ≡ compute_checksum c e
    → IsWritable c e
    → Fits c e
writable-Fits c codec e k w =
    let (line, written, back, one) = codec.round_trip e w.0 in
    record {
      line = line;
      written = written;
      read_back = back;
      one_line = one;
      short = w.1 line written;
      checked = k;
    }

-- The checksum does not depend on the checksum field.
pub with_checksum-checked :
    (c : Codec) (e : Entry) → (with_checksum c e).checksum ≡ compute_checksum c (with_checksum c e)
unfolding compute_checksum
with_checksum-checked c e = refl
