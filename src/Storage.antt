-- ===== src/Storage.antt =====
-- internal/storage/file.go: FileStorage.
pub mod Model
pub mod Queries
pub mod Effects
pub mod Results
