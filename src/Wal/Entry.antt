-- ===== src/Wal/Entry.antt =====
-- internal/reliability/wal/entry.go: the record of the log and its checksum.
-- JSON, fmt and CRC32 are Go's own packages: `Codec` holds the calls that the log makes of them.
use open_fabric.Common.{ℕ, ◌≡◌, ◌≢◌, String, Bool, true, Option, none, some, List, [], ◌∷◌, All}

pub data EntryType : Type 0 where
  task_submit task_start task_complete task_fail storage_write storage_delete flow_run_start
        flow_step_complete flow_run_complete agent_start agent_step_complete checkpoint_mark :
      EntryType

pub data EntryStatus : Type 0 where
  pending committed aborted : EntryStatus

-- `type` and `status` as in the source; `lsn` is a uint64, `checksum` a uint32.
pub record Entry : Type 0 where
  pub lsn : ℕ
  pub kind : EntryType
  pub status : EntryStatus
  pub timestamp : ℕ
  pub entity_id : String
  pub payload : List ℕ
  pub checksum : ℕ

pub record Codec : Type 0 where
  -- `json.Marshal` of an entry; `none` is an error.
  pub marshal : Entry → Option (List ℕ)
  -- `json.Unmarshal` into an entry.
  pub unmarshal : List ℕ → Option Entry
  -- `json.Unmarshal` into `committed_lsn` and `aborted_lsn`, 0 where absent.
  pub unmarshal_refs : List ℕ → Option (ℕ × ℕ)
  pub crc32 : List ℕ → ℕ
  -- `fmt.Sprintf` with the formats of `Commit` and `Abort`.
  pub sprintf_committed : ℕ → List ℕ
  pub sprintf_aborted : ℕ → String → List ℕ
  -- An entry whose text, times and payload JSON writes as they are.
  pub writable : Entry → Bool
  -- A text whose Go-quoted form is also its JSON form.
  pub plain : String → Bool

-- The bytes hold no line feed and do not end in a carriage return, and there is one at least.
abbrev pub EndsWell : List ℕ → Type 0
EndsWell [] = Unit
EndsWell (b ∷ []) = b ≢ 13
EndsWell (b ∷ c ∷ bs) = EndsWell (c ∷ bs)

abbrev pub IsLine : List ℕ → Type 0
IsLine bs = (bs ≢ []) × All (λ b. b ≢ 10) bs × EndsWell bs

-- What is documented of encoding/json and fmt: a writable entry is written as one line that reads
-- back as the entry, and the payloads of `Commit` and of `Abort` read back as the number given.
pub record IsCodec (c : Codec) : Type 0 where
  pub round_trip :
      (e : Entry)
      → c.writable e ≡ true
      → (bs : List ℕ) × (c.marshal e ≡ some bs) × (c.unmarshal bs ≡ some e) × IsLine bs
  pub committed_refs : (n : ℕ) → c.unmarshal_refs (c.sprintf_committed n) ≡ some (n, 0)
  pub aborted_refs :
      (n : ℕ) (reason : String)
      → c.plain reason ≡ true
      → c.unmarshal_refs (c.sprintf_aborted n reason) ≡ some (0, n)

abbrev bytes_or_nil : Option (List ℕ) → List ℕ
bytes_or_nil none = []
bytes_or_nil (some bs) = bs

-- `computeChecksum`: the error of `json.Marshal` is dropped, which leaves no bytes.
unfoldable pub compute_checksum : Codec → Entry → ℕ
compute_checksum c e = c.crc32 (bytes_or_nil (c.marshal (record e { checksum = 0 })))

-- `entry.Checksum = computeChecksum(entry)`
abbrev pub with_checksum : Codec → Entry → Entry
with_checksum c e = record e { checksum = compute_checksum c e }
