-- ===== src/Analysis.antt =====
-- internal/analysis/comparison.go: the runs it compares and the arithmetic it needs (Model), the
-- comparison of two runs (Comparison), and of a run with a baseline (Baselines).
pub mod Model
pub mod Comparison
pub mod Baselines
pub mod Verdicts
