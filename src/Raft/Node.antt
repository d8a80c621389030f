-- ===== src/Raft/Node.antt =====
-- byoridb-storage/src/raft/node.rs: the Raft node, one function for each method.
pub mod Defs
pub mod Votes
pub mod Append
pub mod Leader
pub mod Config
pub mod Tick
pub mod Events
pub mod Examples
pub mod Leading
pub mod Stopped
