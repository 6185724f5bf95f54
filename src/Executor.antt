-- ===== src/Executor.antt =====
-- internal/task/executor.go: running the steps of a task, and the calls that start and stop a run.
pub mod Model
pub mod Run
pub mod Control
pub mod Writes
