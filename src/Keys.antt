-- ===== src/Keys.antt =====
-- byoridb-storage/src/key.rs: the binary keys of vertices, edges and index entries.
pub mod BigEndian
pub mod Values
pub mod Layout
pub mod Examples
