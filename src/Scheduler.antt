-- ===== src/Scheduler.antt =====
-- internal/scheduler: the scheduler around its queue, its scorer and its task store.
pub mod Locks
pub mod Classifier
pub mod Tasks
pub mod Select
