-- ===== src/Broker.antt =====
-- The broker of cluster/broker.go over its listeners and its peers.
pub mod Listeners
pub mod Peers
pub mod Routes
pub mod Users
pub mod Listed
pub mod Reached
pub mod Counts
pub mod Calls
pub mod Kicks
pub mod Options
pub mod PeerClient
