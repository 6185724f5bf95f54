-- ===== src/Engine.antt =====
-- internal/engine/engine.go: the run profiles (Profiles), parseTargetURL (Target), Run (Run) and what is proved of them.
pub mod Profiles
pub mod Target
pub mod Run
pub mod Overrides
pub mod Records
pub mod Success
