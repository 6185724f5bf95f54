-- ===== src/TaskStore.antt =====
-- internal/task/store.go: the persistent store of tasks.
pub mod Model
pub mod Query
pub mod Archive
pub mod Watch
pub mod View
pub mod Recovery
pub mod History
pub mod Drafts
pub mod Listing
pub mod Retention
