-- ===== src/Server.antt =====
-- src/rpc_server.cpp, class `ows_rpcHandler`: the remote calls that a node answers.
pub mod State
pub mod Remote
pub mod Routing
pub mod Nodes
pub mod Jobs
pub mod Forwarding
pub mod Greeting
