-- ===== src/Lib.antt =====
-- ByoriDB, a distributed graph database: a model of its consensus core, its storage keys, its
-- key-value store with the state that Raft keeps there, its secondary indexes, its transactions, its
-- placement of partitions, its sessions and its limits on logins, with the theorems that make them
-- correct.
--
-- The program. A graph service takes queries in sessions, a meta service places partitions, and
-- storage services hold each partition as a replicated log of commands. A storage service keeps one
-- Raft node for each of its partitions in a group manager; a driver calls the node's tick, sends the
-- requests that it returns, and passes the messages of other nodes in. Applied commands write
-- vertices, edges and index entries under binary keys to an embedded key-value store, which also
-- keeps the past versions of an entity, the state of a Raft node and its snapshots.
--
-- The files.
--   Base (Base/Tests, Lists, Maps, Word, Ordered, Lex, Pairs, Members, Distinct): Boolean tests, lists
--     by native numbers, `HashMap` as an association list, 64-bit arithmetic with its wrap-around,
--     `BTreeMap` as a list in key order, the order of byte strings and of pairs, the elements of a
--     list, and tables in which no key stands twice.
--   Raft/Types: byoridb-storage/src/raft/types.rs, the messages, commands and configurations.
--   Raft/Log/Defs: byoridb-storage/src/raft/log.rs, one function for each method of `RaftLog`.
--     Raft/Log/Reads and Updates hold the well-formed logs and what reads find after an update.
--   Raft/Node/Defs, Votes, Append, Leader, Config, Tick: byoridb-storage/src/raft/node.rs, one
--     function for each method of `RaftNode`, which takes the node and returns the new node with
--     the method's result. A long method is cut at its blocks, which are named functions.
--   Raft/Node/Append/Cut, Store, Cases, Matching, Commit: a follower's log after a request.
--   Raft/Node/Leader/Tables, Counts, Quorum, Requests: the leader's tables, commit index, requests.
--   Raft/Node/Events: the methods as events, and the nodes that a node becomes by any sequence of
--     them (`Reach`); Events/Terms, Ballots, Elected: terms, votes and elections over events.
--   Raft/Node/Tick/Stalls: ticks that do not make progress.
--   Raft/Storage: byoridb-storage/src/raft/storage.rs, `RaftStorage`; Storage/Keys: its keys;
--     Storage/Mirror: the stored entries follow the node's log.
--   Raft/Snapshot: byoridb-storage/src/raft/snapshot.rs, `SnapshotWriter` and `SnapshotReader`, and
--     Snapshot/Installer, `SnapshotInstaller`. Snapshot/Pairs, Chunks and Received hold the proofs: the
--     pairs, the chunks in the store, and the chunks that an installer takes.
--   Raft/Groups: byoridb-storage/src/raft/mod.rs, `RaftGroupManager`; Groups/Routing: a message
--     reaches its own partition only.
--   Keys/BigEndian, Values, Layout: byoridb-storage/src/key.rs, the bytes of integers, `IndexValue` and
--     `KeyUtils`. Keys/Values/RoundTrip, Order and Keys/Layout/Reads, Apart hold the proofs.
--   Kv: byoridb-kvstore/src/store.rs, `MemoryKVStore` with the defaults of the trait `KVStore`, and
--     Kv/Visits, its scans with a visitor. Kv/Versions: history keys; Kv/AsOf, Newest: reads as of
--     two instants; Kv/Scans: scans and deletions by prefix; Kv/Visits/Laws: the two visiting scans.
--   Index: byoridb-storage/src/index.rs, the definitions of indexes in `IndexManager`; Index/Scans: the
--     entries, scans, lookups and counts; Index/Pages: the pages of a lookup and their cursors. A method
--     for tags and its twin for edges share a function where the source repeats the lines.
--     Index/Scans/Successor, Entries, Lookups, Bounds, Operators, Ranges: what a lookup finds, by values
--     and by a range of integers; Index/Pages/After, Runs, Complete, Ends, Lookup: runs through the
--     pages (`PageRun`); Index/Drops: what a drop leaves in the store.
--   Strategy: byoridb-common/src/partition.rs, `PartitionStrategy`; Strategy/Bounds: where a vertex goes.
--   Transactions: byoridb-executor/src/transaction.rs, `Transaction`, `TransactionManager` and the version
--     counters; Transactions/Commits: what commits store; Transactions/Versions: the counters.
--   Hash: byoridb-common/src/hash/murmur.rs, the partition of a vertex.
--   Ring: byoridb-common/src/hash/consistent_ring.rs, `ConsistentHashRing`, with `hash_bytes`; Ring/Moves:
--     lookups after a node has joined, and the walk for replicas.
--   Placement: byoridb-meta/src/allocator.rs, `PartitionAllocator::allocate`; Placement/Spread: its
--     replicas lie on distinct hosts; Placement/Routes: routed vertices find a host.
--   Sessions: byoridb-graph/src/session.rs, `SessionManager`; Sessions/Sweeps: the operations that remove
--     many sessions; Sessions/Expiry: which sessions are alive.
--   Auth: byoridb-graph/src/auth.rs, `LoginThrottleConfig` and `LoginRateLimiter`; Auth/Limits: the
--     size of its table; Auth/Sliding: the failures of a window, by their instants; Auth/Budgets,
--     Waits: when a login is admitted.
--   The modules Examples, Leading and Stopped run the theorems on concrete inputs, Index/Plain with plain
--   encodings.
--
-- The model. A `u64` is a number below 2^64, and its additions and subtractions are written with the
-- wrap-around of the release build. A panic on a slice out of range is `none`. A lock is held for one
-- method at a time, so methods are steps and the new state is passed on. The clock (`now`) and the
-- random generator (`gen_range`) are parameters of a node, read by the number of draws made so far.
-- Strings are lists of bytes; lossy UTF-8 decoding is a parameter of the decoder, and printing a number
-- one of the ring and of the index keys. The libraries bincode and serde_json are a record `Codec`,
-- whose law is that it reads back what it wrote. An instant of the login limits is a number of
-- nanoseconds. Loops run over a list or over a number that the source counts down or up to, except the
-- one that reads the pairs of a snapshot: it runs on fuel, one more than there are bytes, and each
-- round takes at least eight of them. Lists are cut into chunks on the length of the list as fuel,
-- since a chunk is not empty.
--
-- Not modelled: the network and the driver's asynchronous loop; the file store, which calls the library
-- redb, and its backups; the counters of the store; the users, roles and tokens of the authentication;
-- the query parser, planner and executor; the rest of the meta service, and the services around them.
-- Log lines and metrics have no effect on the state and are left out.
pub mod Auth
pub mod Base
pub mod Hash
pub mod Index
pub mod Keys
pub mod Kv
pub mod Placement
pub mod Raft
pub mod Ring
pub mod Sessions
pub mod Strategy
pub mod Transactions
