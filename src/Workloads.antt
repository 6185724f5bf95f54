-- ===== src/Workloads.antt =====
-- internal/workload/registry.go: the registry of workloads (Registry) and those that it begins with
-- (Builtins).
pub mod Builtins
pub mod Registry
