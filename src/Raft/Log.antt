-- ===== src/Raft/Log.antt =====
-- byoridb-storage/src/raft/log.rs: the in-memory log of a Raft node. The log index is 1-based, and
-- `entries` begins at `first_index`. `none` for a function that reads slices is Rust's panic on a
-- slice out of range. The unused `kvstore` field and the partition's ids are left out.
pub mod Defs
pub mod Reads
pub mod Updates
