-- ===== src/Raft/Snapshot.antt =====
-- byoridb-storage/src/raft/snapshot.rs: the writer and the reader of snapshots, over the
-- in-memory key-value store. bincode of the metadata and of the chunks is a parameter; the clock's
-- reading is an argument. The loop of `iter_kvs` runs on fuel, one more than the bytes left, which is enough.
pub mod Pairs
pub mod Chunks
pub mod Installer
pub mod Received
mod Examples
use byoridb.Base.{
  ℕ, zero, suc, ◌+◌, ◌-◌, ◌*◌, ◌/◌, ◌%◌, ◌^◌, Bool, true, false, List, [], ◌∷◌, ◌++◌, Option, none,
  some, length, take, drop, get_elem?, chunks, ltb, leb, ◌==◌, if◌then◌else◌, u64_mod,
}
use byoridb.Raft.Types.{Bytes}
use byoridb.Keys.BigEndian.{write_u32}
use byoridb.Kv.{MemoryKvStore, get, put}
use byoridb.Raft.Storage.{Codec}

pub record SnapshotMeta : Type 0 where
  pub last_included_index : ℕ
  pub last_included_term : ℕ
  pub size : ℕ
  pub chunk_count : ℕ
  pub created_at : ℕ

pub record SnapshotChunk : Type 0 where
  pub index : ℕ
  pub offset : ℕ
  pub bytes : Bytes
  pub is_last : Bool

pub record SnapshotWriter : Type 0 where
  pub space_id : ℕ
  pub part_id : ℕ
  pub last_included_index : ℕ
  pub last_included_term : ℕ
  pub bytes : Bytes
  pub chunk_size : ℕ

pub data SnapshotError : Type 0 where
  serialization deserialization : SnapshotError
  truncated_key truncated_value_length truncated_value : SnapshotError
  missing_chunk : ℕ → SnapshotError
  out_of_range : ℕ → SnapshotError
  no_pending_snapshot : SnapshotError
  -- The fuel of the model ran out.
  out_of_fuel : SnapshotError

pub data SnapshotResult {ℓ} (A : Type ℓ) : Type ℓ where
  ok : A → SnapshotResult A
  err : SnapshotError → SnapshotResult A

infixl 5 ◌>>=◌
abbrev pub ◌>>=◌ {ℓ κ} :
    {A : Type ℓ} {B : Type κ} → SnapshotResult A → (A → SnapshotResult B) → SnapshotResult B
ok a >>= f = f a
err e >>= f = err e

-- "raft:snapshot:meta:" and "raft:snapshot:data:".
abbrev pub meta_tag : Bytes
meta_tag =
    114 ∷ 97 ∷ 102 ∷ 116 ∷ 58 ∷ 115 ∷ 110 ∷ 97 ∷ 112 ∷ 115 ∷ 104 ∷ 111 ∷ 116 ∷ 58 ∷ 109 ∷ 101 ∷ 116
    ∷ 97 ∷ 58 ∷ []

abbrev pub data_tag : Bytes
data_tag =
    114 ∷ 97 ∷ 102 ∷ 116 ∷ 58 ∷ 115 ∷ 110 ∷ 97 ∷ 112 ∷ 115 ∷ 104 ∷ 111 ∷ 116 ∷ 58 ∷ 100 ∷ 97 ∷ 116
    ∷ 97 ∷ 58 ∷ []

unfoldable pub meta_key : ℕ → ℕ → Bytes
meta_key space_id part_id = meta_tag ++ (write_u32 space_id ++ write_u32 part_id)

unfoldable pub chunk_key : ℕ → ℕ → ℕ → Bytes
chunk_key space_id part_id chunk_index =
    data_tag ++ (write_u32 space_id ++ (write_u32 part_id ++ (58 ∷ write_u32 chunk_index)))

-- `to_le_bytes` and `from_le_bytes` of a `u32`; the cast `as u32` keeps the last four bytes.
unfoldable pub le_bytes : ℕ → ℕ → Bytes
le_bytes zero n = []
le_bytes (suc k) n = (n % 256) ∷ le_bytes k (n / 256)

unfoldable pub read_le : Bytes → ℕ
read_le [] = 0
read_le (b ∷ bs) = b + 256 * read_le bs

-- A `const` in `new`, and again in `begin` and `receive_chunk`.
abbrev pub snapshot_chunk_size : ℕ
snapshot_chunk_size = 64 * 1024

unfoldable pub new_writer : ℕ → ℕ → ℕ → ℕ → SnapshotWriter
new_writer space_id part_id last_included_index last_included_term = record {
  space_id = space_id;
  part_id = part_id;
  last_included_index = last_included_index;
  last_included_term = last_included_term;
  bytes = [];
  chunk_size = snapshot_chunk_size;
}

unfoldable pub write : SnapshotWriter → Bytes → SnapshotWriter
write w bytes = record w { bytes = w.bytes ++ bytes }

unfoldable pub write_kv : SnapshotWriter → Bytes → Bytes → SnapshotWriter
write_kv w key value = record w {
  bytes = w.bytes ++ (le_bytes 4 (length key) ++ (key ++ (le_bytes 4 (length value) ++ value)));
}

abbrev pub div_ceil : ℕ → ℕ → ℕ
div_ceil a b = (a + b - 1) / b

unfoldable pub chunk_count_of : ℕ → ℕ → ℕ
chunk_count_of size chunk_size = div_ceil size chunk_size % 2 ^ 32

module _ (metas : Codec SnapshotMeta) (parts : Codec SnapshotChunk) where
  -- The loop over the chunks, from the one with index `i` on.
  unfoldable pub save_chunks :
      SnapshotWriter → ℕ → ℕ → List Bytes → MemoryKvStore → SnapshotResult MemoryKvStore
  save_chunks w count i [] s = ok s
  save_chunks w count i (bytes ∷ rest) s =
      elim (parts.serialize (record {
        index = i % 2 ^ 32;
        offset = i * w.chunk_size;
        bytes = bytes;
        is_last = i % 2 ^ 32 == (count + (2 ^ 32 - 1)) % 2 ^ 32;
      })) [
        | none ↦ err serialization
        | some value ↦
            save_chunks w count (suc i) rest
              (put s (chunk_key w.space_id w.part_id (i % 2 ^ 32)) value)
      ]

  unfoldable pub finish :
      SnapshotWriter → ℕ → MemoryKvStore → SnapshotResult (MemoryKvStore × SnapshotMeta)
  unfolding save_chunks
  finish w now s =
      let count = chunk_count_of (length w.bytes) w.chunk_size in
      let meta : SnapshotMeta = record {
        last_included_index = w.last_included_index;
        last_included_term = w.last_included_term;
        size = length w.bytes;
        chunk_count = count;
        created_at = now;
      } in
      save_chunks w count 0 (chunks w.chunk_size w.bytes) s >>= λ s'. elim (metas.serialize meta) [
        | none ↦ err serialization
        | some value ↦ ok (put s' (meta_key w.space_id w.part_id) value, meta)
      ]

  module _ (space_id part_id : ℕ) (s : MemoryKvStore) where
    unfoldable pub load_meta : SnapshotResult (Option SnapshotMeta)
    load_meta = elim (get s (meta_key space_id part_id)) [
      | none ↦ ok none
      | some bytes ↦ elim (metas.deserialize bytes) [
        | none ↦ err deserialization
        | some meta ↦ ok (some meta)
      ]
    ]

    unfoldable pub load_chunk : ℕ → SnapshotResult (Option SnapshotChunk)
    load_chunk index = elim (get s (chunk_key space_id part_id index)) [
      | none ↦ ok none
      | some bytes ↦ elim (parts.deserialize bytes) [
        | none ↦ err deserialization
        | some chunk ↦ ok (some chunk)
      ]
    ]

    -- The loop over the chunk indexes from `i` on, `left` of them.
    unfoldable pub load_chunks : ℕ → ℕ → SnapshotResult Bytes
    unfolding load_chunk
    load_chunks i zero = ok []
    load_chunks i (suc left) =
        let rest = load_chunks (suc i) left in
        load_chunk i >>= λ found. elim found [
          | none ↦ err (missing_chunk i)
          | some chunk ↦ rest >>= λ bytes. ok (chunk.bytes ++ bytes)
        ]

    unfoldable pub load_all_data : SnapshotResult (Option Bytes)
    unfolding load_chunks load_meta
    load_all_data = load_meta >>= λ found. elim found [
      | none ↦ ok none
      | some meta ↦ load_chunks 0 meta.chunk_count >>= λ bytes. ok (some bytes)
    ]

-- The loop of `iter_kvs` on the bytes from `offset` on.
unfoldable pub parse_kvs : ℕ → Bytes → SnapshotResult (List (Bytes × Bytes))
parse_kvs zero d = err out_of_fuel
parse_kvs (suc fuel) d =
    let key_len = read_le (take 4 d) in
    let d1 = drop 4 d in
    let d2 = drop key_len d1 in
    let value_len = read_le (take 4 d2) in
    let d3 = drop 4 d2 in
    let rest = parse_kvs fuel (drop value_len d3) in
    if ltb (length d) 8
    then ok []
    else if ltb (length d1) key_len
    then err truncated_key
    else if ltb (length d2) 4
    then err truncated_value_length
    else if ltb (length d3) value_len
    then err truncated_value
    else (rest >>= λ kvs. ok ((take key_len d1, take value_len d3) ∷ kvs))

unfoldable pub iter_kvs : SnapshotResult (Option Bytes) → SnapshotResult (List (Bytes × Bytes))
unfolding parse_kvs
iter_kvs loaded = loaded >>= λ found. elim found [
  | none ↦ ok []
  | some bytes ↦ parse_kvs (suc (length bytes)) bytes
]
