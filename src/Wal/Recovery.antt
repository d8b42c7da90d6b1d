-- ===== src/Wal/Recovery.antt =====
-- internal/reliability/wal/recovery.go: `RecoverPending`. `PendingEntry` is the entry here: its second
-- field repeats the entry's payload.
use open_fabric.Common.{
  ℕ, Bool, true, false, not, ◌&&◌, ◌||◌, eqb, if◌then◌else◌, Option, none, some, List, [], ◌∷◌,
}
use open_fabric.Wal.Entry.{Entry, EntryStatus, pending, Codec}
use open_fabric.Wal.Scan.{read_file}

-- The file that `os.Open` finds.
pub data Disk : Type 0 where
  missing unreadable : Disk
  holds : List ℕ → Disk

-- A result with Go's second value: the entries found, and whether an error came with them.
pub record Recovery : Type 0 where
  pub entries : List Entry
  pub failed : Bool

abbrev pub is_pending : EntryStatus → Bool
is_pending pending = true
is_pending _ = false

mark : ℕ → List ℕ → List ℕ
mark lsn done = if eqb lsn 0 then done else lsn ∷ done

marks : Option (ℕ × ℕ) → List ℕ → List ℕ
unfolding mark
marks none done = done
marks (some (c, a)) done = mark a (mark c done)

-- The LSNs that one entry settles.
unfoldable pub settle : Codec → Entry → List ℕ → List ℕ
unfolding marks
settle c e done = if is_pending e.status then done else marks (c.unmarshal_refs e.payload) done

-- The map `committed` after the first pass.
unfoldable pub settled : Codec → List Entry → List ℕ
settled c [] = []
settled c (e ∷ es) = settle c e (settled c es)

unfoldable pub contains : ℕ → List ℕ → Bool
contains n [] = false
contains n (m ∷ ms) = eqb m n || contains n ms

-- The second pass.
unfoldable pub unsettled : List ℕ → List Entry → List Entry
unsettled done [] = []
unsettled done (e ∷ es) =
    let rest = unsettled done es in
    if is_pending e.status && not (contains e.lsn done) then e ∷ rest else rest

unfoldable pub pending_of : Codec → List Entry → List Entry
pending_of c es = unsettled (settled c es) es

-- `RecoverPending`.
unfoldable pub recover_pending : Codec → Disk → Recovery
recover_pending c missing = record { entries = []; failed = false }
recover_pending c unreadable = record { entries = []; failed = true }
recover_pending c (holds file) =
    let (es, err) = read_file c file in record { entries = pending_of c es; failed = err }
