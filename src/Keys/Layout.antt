-- ===== src/Keys/Layout.antt =====
-- byoridb-storage/src/key.rs, `KeyUtils`: the layout of the keys, and the readers of the ids at the
-- end of an index key.
pub mod Reads
pub mod Apart
use byoridb.Base.{
  ℕ, ◌+◌, ◌-◌, Bool, true, false, List, [], ◌∷◌, ◌++◌, Option, none, some, length, take, drop, ltb,
  if◌then◌else◌,
}
use byoridb.Raft.Types.{Bytes}
use byoridb.Keys.BigEndian.{ℤ, write_u32, write_i64, read_i64}
use byoridb.Keys.Values.{IndexValue, encode}

pub data KeyType : Type 0 where
  vertex edge system tag_index edge_index : KeyType

abbrev pub code : KeyType → ℕ
code vertex = 1
code edge = 2
code system = 3
code tag_index = 4
code edge_index = 5

unfoldable pub vertex_key : ℕ → ℤ → ℕ → Bytes
vertex_key part_id vid tag_id =
    write_u32 part_id ++ (write_i64 vid ++ (code vertex ∷ write_u32 tag_id))

unfoldable pub edge_key : ℕ → ℤ → ℕ → ℤ → ℤ → Bytes
edge_key part_id src_vid edge_type rank dst_vid =
    write_u32 part_id
    ++ (write_i64 src_vid
        ++ (code edge ∷ (write_u32 edge_type ++ (write_i64 rank ++ write_i64 dst_vid))))

unfoldable pub system_key : Bytes → Bytes
system_key suffix = code system ∷ suffix

unfoldable pub encode_values : List IndexValue → Bytes
encode_values [] = []
encode_values (v ∷ vs) = encode v ++ encode_values vs

unfoldable pub index_prefix : KeyType → ℕ → ℕ → Bytes
index_prefix t part_id index_id = write_u32 part_id ++ (code t ∷ write_u32 index_id)

unfoldable pub tag_index_prefix : ℕ → ℕ → Bytes
unfolding index_prefix
tag_index_prefix = index_prefix tag_index

unfoldable pub edge_index_prefix : ℕ → ℕ → Bytes
unfolding index_prefix
edge_index_prefix = index_prefix edge_index

unfoldable pub tag_index_prefix_with_values : ℕ → ℕ → List IndexValue → Bytes
tag_index_prefix_with_values part_id index_id prop_values =
    tag_index_prefix part_id index_id ++ encode_values prop_values

unfoldable pub edge_index_prefix_with_values : ℕ → ℕ → List IndexValue → Bytes
edge_index_prefix_with_values part_id index_id prop_values =
    edge_index_prefix part_id index_id ++ encode_values prop_values

unfoldable pub tag_index_key : ℕ → ℕ → List IndexValue → ℤ → Bytes
tag_index_key part_id index_id prop_values vid =
    tag_index_prefix part_id index_id ++ (encode_values prop_values ++ write_i64 vid)

unfoldable pub edge_index_key : ℕ → ℕ → List IndexValue → ℤ → ℤ → ℤ → Bytes
edge_index_key part_id index_id prop_values src_vid rank dst_vid =
    edge_index_prefix part_id index_id
    ++ (encode_values prop_values ++ (write_i64 src_vid ++ (write_i64 rank ++ write_i64 dst_vid)))

unfoldable pub parse_tag_index_vid : Bytes → Option ℤ
parse_tag_index_vid key =
    if ltb (length key) 17 then none else some (read_i64 (drop (length key - 8) key))

unfoldable pub parse_edge_index_edge : Bytes → Option (ℤ × ℤ × ℤ)
parse_edge_index_edge key =
    if ltb (length key) 33
    then none
    else (let ids = drop (length key - 24) key in
        some
          (read_i64 (take 8 ids), read_i64 (take 8 (drop 8 ids)), read_i64 (take 8 (drop 16 ids))))
