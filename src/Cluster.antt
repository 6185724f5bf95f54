-- ===== src/Cluster.antt =====
-- internal/cluster/cluster.go: the hash slots of Redis Cluster, the topology that `CLUSTER NODES`
-- tells, the node of a slot, and the tracker of how keys spread.
pub mod Slot
pub mod Topology
pub mod Analyzer
pub mod Spread
pub mod Failover
