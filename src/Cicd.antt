-- ===== src/Cicd.antt =====
-- internal/cicd/gates.go: the environment of a build (Environment) and the performance gates
-- (Gates).
pub mod Environment
pub mod Gates
