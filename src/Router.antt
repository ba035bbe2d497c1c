-- ===== src/Router.antt =====
-- src/router.cpp, class `Router`: the routing table, the master node and the direct peers.
pub mod Index
pub mod Table
pub mod Peers
pub mod Routes
pub mod Deletion
pub mod Discovery
pub mod Weights
