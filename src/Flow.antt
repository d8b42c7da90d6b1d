-- ===== src/Flow.antt =====
-- internal/flow: the check of a flow's dependencies when it is saved, and the coordination of a run.
pub mod Graph
pub mod Run
