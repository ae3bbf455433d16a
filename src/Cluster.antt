-- ===== src/Cluster.antt =====
-- cluster: the state that the raft log replicates over the brokers, and the log's operations on it.
pub mod State
pub mod Links
pub mod Closed
pub mod Nodes
pub mod Close
pub mod Effects
pub mod Joined
pub mod Invariant
pub mod Log
pub mod LogTrip
pub mod Snapshot
pub mod SnapshotTrip
pub mod Node
pub mod Batches
pub mod Loop
