-- ===== src/Scheduler/Tasks.antt =====
-- internal/scheduler/scheduler.go: the task store and the goroutines that run the tasks, between whose
-- critical sections the calls of others take place.
pub mod Store
pub mod Runs
pub mod History
pub mod Count
pub mod Filed
pub mod Cancelled
pub mod Kept
mod Tests
