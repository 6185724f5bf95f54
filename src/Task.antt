-- ===== src/Task.antt =====
-- internal/task/task.go: a benchmark task, its steps and its state machine.
pub mod Model
pub mod Plan
pub mod Progress
pub mod Steps
pub mod Status
