-- ===== src/Keys/Layout/Reads.antt =====
-- byoridb-storage/src/key.rs: the ids are read back from index keys, whatever the indexed values.
use byoridb.Base.{
  drop_prefix, take_all, take_prefix, ℕ, ◌+◌, ◌-◌, ◌≤◌, ◌≡◌, false, List, ◌∷◌, ◌++◌, some, length,
  length-append, drop, ltb, arith,
}
use mathlib.Core.Path.{subst}
use mathlib.Core.List.{append_assoc}
use byoridb.Raft.Types.{Bytes}
use byoridb.Keys.BigEndian.{
  ℤ, IsI64, as_u64, be_bytes, write_i64, read_i64-write_i64, length-be_bytes,
}
use byoridb.Keys.Values.{IndexValue}
use byoridb.Keys.Layout.{
  index_prefix, tag_index_prefix, edge_index_prefix, encode_values, tag_index_key, edge_index_key,
  parse_tag_index_vid, parse_edge_index_edge, KeyType, tag_index, edge_index, code,
}

length-index_prefix : (t : KeyType) (p i : ℕ) → length (index_prefix t p i) ≡ 9
unfolding index_prefix
length-index_prefix t p i = omega (
  arith,
  length-append (be_bytes 4 p) (code t ∷ be_bytes 4 i),
  length-be_bytes 4 p,
  length-be_bytes 4 i,
)

length-tag_index_prefix : (p i : ℕ) → length (tag_index_prefix p i) ≡ 9
unfolding tag_index_prefix
length-tag_index_prefix = length-index_prefix tag_index

length-edge_index_prefix : (p i : ℕ) → length (edge_index_prefix p i) ≡ 9
unfolding edge_index_prefix
length-edge_index_prefix = length-index_prefix edge_index

-- The end of a key behind a header of nine bytes.
tail_read :
    (header values ids : Bytes) (n : ℕ)
    → length header ≡ 9
    → length ids ≡ n
    → (drop (length (header ++ (values ++ ids)) - n) (header ++ (values ++ ids)) ≡ ids)
      × (9 + n ≤ length (header ++ (values ++ ids)))
tail_read header values ids n h k =
    let total = length-append header (values ++ ids) in
    let rest = length-append values ids in
    let cut : length (header ++ values) ≡ length (header ++ (values ++ ids)) - n =
      omega (arith, total, rest, length-append header values) in
    (
      subst (λ key. drop (length (header ++ (values ++ ids)) - n) key ≡ ids)
          (append_assoc header values ids)
          (drop_prefix (length (header ++ (values ++ ids)) - n) (header ++ values) ids cut),
      omega (arith, total, rest),
    )

-- A tag index key over any property values gives back its 64-bit vertex id.
pub parse_tag_index_vid-tag_index_key :
    (part_id index_id : ℕ) (prop_values : List IndexValue) (vid : ℤ)
    → IsI64 vid
    → parse_tag_index_vid (tag_index_key part_id index_id prop_values vid) ≡ some vid
unfolding parse_tag_index_vid tag_index_key
parse_tag_index_vid-tag_index_key p i vs vid h =
    let t =
      tail_read (tag_index_prefix p i) (encode_values vs) (write_i64 vid) 8
        (length-tag_index_prefix p i) (length-be_bytes 8 (as_u64 vid)) in
    let long : ltb (length (tag_index_prefix p i ++ (encode_values vs ++ write_i64 vid))) 17
        ≡ false =
      ground (arith, t.1) in
    rw (long, t.0, read_i64-write_i64 vid h)

-- An edge index key over any property values gives back its 64-bit source, rank and destination.
pub parse_edge_index_edge-edge_index_key :
    (part_id index_id : ℕ) (prop_values : List IndexValue) (src_vid rank dst_vid : ℤ)
    → IsI64 src_vid
    → IsI64 rank
    → IsI64 dst_vid
    → parse_edge_index_edge (edge_index_key part_id index_id prop_values src_vid rank dst_vid)
      ≡ some (src_vid, rank, dst_vid)
unfolding parse_edge_index_edge edge_index_key
parse_edge_index_edge-edge_index_key p i vs a b c ha hb hc =
    let ids = write_i64 a ++ (write_i64 b ++ write_i64 c) in
    let la = length-be_bytes 8 (as_u64 a) in
    let lb = length-be_bytes 8 (as_u64 b) in
    let lc = length-be_bytes 8 (as_u64 c) in
    let size : length ids ≡ 24 = omega (
      arith,
      length-append (write_i64 a) (write_i64 b ++ write_i64 c),
      length-append (write_i64 b) (write_i64 c),
      la,
      lb,
      lc,
    ) in
    let t =
      tail_read (edge_index_prefix p i) (encode_values vs) ids 24 (length-edge_index_prefix p i)
        size in
    let long : ltb (length (edge_index_prefix p i ++ (encode_values vs ++ ids))) 33 ≡ false =
      ground (arith, t.1) in
    let third : drop 16 ids ≡ write_i64 c =
      subst (λ key. drop 16 key ≡ write_i64 c)
        (append_assoc (write_i64 a) (write_i64 b) (write_i64 c))
        (drop_prefix 16 (write_i64 a ++ write_i64 b) (write_i64 c)
          (omega (arith, length-append (write_i64 a) (write_i64 b), la, lb))) in
    rw (
      long,
      t.0,
      third,
      drop_prefix 8 (write_i64 a) (write_i64 b ++ write_i64 c) la,
      take_prefix 8 (write_i64 a) (write_i64 b ++ write_i64 c) la,
      take_prefix 8 (write_i64 b) (write_i64 c) lb,
      take_all 8 (write_i64 c) (omega (arith, lc)),
      read_i64-write_i64 a ha,
      read_i64-write_i64 b hb,
      read_i64-write_i64 c hc,
    )
