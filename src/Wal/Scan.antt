-- ===== src/Wal/Scan.antt =====
-- The loop that `recoverLSN` (wal.go) and `RecoverPending` (recovery.go) share: `bufio.Scanner` over
-- the file by lines of at most 1 MiB, and the entries that parse and have a good checksum.
use open_fabric.Common.{
  ℕ, Bool, true, false, ltb, eqb, if◌then◌else◌, Option, none, some, List, [], ◌∷◌, length,
}
use open_fabric.Wal.Entry.{Entry, Codec, compute_checksum}

prepend : ℕ → List (List ℕ) → List (List ℕ)
prepend b [] = (b ∷ []) ∷ []
prepend b (l ∷ ls) = (b ∷ l) ∷ ls

-- The bytes between line feeds; the last line may lack its line feed.
unfoldable pub raw_lines : List ℕ → List (List ℕ)
unfolding prepend
raw_lines [] = []
raw_lines (b ∷ bs) = let rest = raw_lines bs in if eqb b 10 then [] ∷ rest else prepend b rest

-- `bufio.ScanLines` drops one carriage return at the end of a line.
unfoldable pub drop_cr : List ℕ → List ℕ
drop_cr [] = []
drop_cr (b ∷ []) = if eqb b 13 then [] else b ∷ []
drop_cr (b ∷ c ∷ bs) = b ∷ drop_cr (c ∷ bs)

abbrev pub max_line : ℕ
max_line = 1048576

-- The lines that the scanner yields before one that does not fit its buffer, and whether it met one
-- (`scanner.Err()`).
unfoldable pub scan : List (List ℕ) → List (List ℕ) × Bool
scan [] = ([], false)
scan (l ∷ ls) =
    let rest = scan ls in
    if ltb (length l) max_line then (drop_cr l ∷ rest.0, rest.1) else ([], true)

-- `entry.Checksum != expected`
check_entry : Codec → Option Entry → Option Entry
check_entry c none = none
check_entry c (some e) = if eqb e.checksum (compute_checksum c e) then some e else none

-- The body of the loop: an empty line, a line that does not parse and a bad checksum are skipped.
unfoldable pub read_line : Codec → List ℕ → Option Entry
unfolding check_entry
read_line c [] = none
read_line c (b ∷ bs) = check_entry c (c.unmarshal (b ∷ bs))

cons_some : Option Entry → List Entry → List Entry
cons_some none es = es
cons_some (some e) es = e ∷ es

unfoldable pub read_lines : Codec → List (List ℕ) → List Entry
unfolding cons_some
read_lines c [] = []
read_lines c (l ∷ ls) = cons_some (read_line c l) (read_lines c ls)

-- The entries of a file, and the scanner's error.
unfoldable pub read_file : Codec → List ℕ → List Entry × Bool
read_file c file = let (lines, err) = scan (raw_lines file) in (read_lines c lines, err)
