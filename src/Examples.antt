-- ===== src/Examples.antt =====
-- Concrete inputs for the code under internal/task, internal/cluster, internal/alerting and
-- internal/plugin, and the theorems at these inputs.
pub mod Data
pub mod Tasks
pub mod Stores
pub mod Runs
pub mod Clusters
pub mod Alerts
pub mod Orgs
pub mod Access
pub mod Gates
pub mod Profiles
pub mod Logs
pub mod Engines
