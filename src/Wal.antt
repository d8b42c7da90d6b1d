-- ===== src/Wal.antt =====
-- internal/reliability/wal: the write-ahead log, its recovery and its compaction.
pub mod Entry
pub mod Scan
pub mod Recovery
pub mod Log
pub mod Image
pub mod Settled
pub mod Ledger
pub mod Refinement
pub mod Compaction
pub mod Torn
mod Tests
