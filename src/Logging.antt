-- ===== src/Logging.antt =====
-- internal/logging: the log store in files, json_store.go (Model, Writing, Reading, Deleting), and
-- what the logger of logger.go passes on (Logger).
pub mod Model
pub mod Writing
pub mod Reading
pub mod Stats
pub mod Deleting
pub mod Logger
pub mod Calls
pub mod Complete
pub mod Own
pub mod Restart
pub mod Queries
pub mod Bounds
