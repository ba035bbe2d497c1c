-- ===== src/Tests.antt =====
-- The theorems at concrete inputs at which their hypotheses hold.
mod Data
mod Database
mod Planning
mod Network
mod Calls
mod Startup
mod Sqlite
mod Threads
mod RpcClient
mod Journal
mod Nodes
