-- ===== src/Raft.antt =====
-- byoridb-storage/src/raft: the Raft consensus core.
pub mod Types
pub mod Log
pub mod Node
pub mod Storage
pub mod Snapshot
pub mod Groups
