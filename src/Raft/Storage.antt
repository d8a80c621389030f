-- ===== src/Raft/Storage.antt =====
-- byoridb-storage/src/raft/storage.rs: `RaftStorage`, the persistent state of a Raft group in the key-value
-- store, here the in-memory one, whose methods do not fail. The library bincode is a parameter, `Codec`.
-- A method takes the store and returns the new store with its result.
pub mod Keys
pub mod Mirror
mod Examples
use byoridb.Base.{
  ℕ, zero, suc, ◌+◌, ◌≤◌, ◌≡◌, Bool, true, false, List, [], ◌∷◌, ◌++◌, Option, none, some, length,
  take, drop, ltb, leb, if◌then◌else◌,
}
use byoridb.Raft.Types.{Bytes, LogEntry}
use byoridb.Keys.BigEndian.{write_u32, write_u64, read_be}
use byoridb.Kv as Kv
use byoridb.Kv.{MemoryKvStore, Entry, get, put, delete, scan_prefix}

pub record RaftPersistentState : Type 0 where
  pub current_term : ℕ
  pub voted_for : Option ℕ

abbrev pub default_state : RaftPersistentState
default_state = record { current_term = 0; voted_for = none }

-- bincode of one type: `serialize` succeeds on a value in memory, and `deserialize` reads it back.
pub record Codec (A : Type 0) : Type 0 where
  pub serialize : A → Option Bytes
  pub deserialize : Bytes → Option A
  pub read_back : (a : A) → (b : Bytes) × (serialize a ≡ some b) × (deserialize b ≡ some a)

pub data StorageResult {ℓ} (A : Type ℓ) : Type ℓ where
  ok : A → StorageResult A
  serialization : StorageResult A
  deserialization : StorageResult A

-- "raft:state:" and "raft:log:".
abbrev pub state_prefix : Bytes
state_prefix = 114 ∷ 97 ∷ 102 ∷ 116 ∷ 58 ∷ 115 ∷ 116 ∷ 97 ∷ 116 ∷ 101 ∷ 58 ∷ []

abbrev pub log_tag : Bytes
log_tag = 114 ∷ 97 ∷ 102 ∷ 116 ∷ 58 ∷ 108 ∷ 111 ∷ 103 ∷ 58 ∷ []

unfoldable pub state_key : ℕ → ℕ → Bytes
state_key space_id part_id = state_prefix ++ (write_u32 space_id ++ write_u32 part_id)

unfoldable pub log_prefix : ℕ → ℕ → Bytes
log_prefix space_id part_id = log_tag ++ (write_u32 space_id ++ (write_u32 part_id ++ 58 ∷ []))

unfoldable pub log_key : ℕ → ℕ → ℕ → Bytes
log_key space_id part_id index = log_prefix space_id part_id ++ write_u64 index

-- `index_bytes` of a scanned key, read as a number.
unfoldable pub index_of : Bytes → Bytes → Option ℕ
index_of prefix key =
    if leb (length prefix + 8) (length key)
    then some (read_be (take 8 (drop (length prefix) key)))
    else none

-- The keys of the loops of `delete_entries_from` and of `compact_log` that are deleted.
abbrev pub from_start : ℕ → Option ℕ → Bool
from_start start_index none = false
from_start start_index (some index) = leb start_index index

abbrev pub up_to : ℕ → Option ℕ → Bool
up_to up_to_index none = false
up_to up_to_index (some index) = ltb index up_to_index

unfoldable pub delete_where : (Bytes → Bool) → MemoryKvStore → List Entry → MemoryKvStore × ℕ
delete_where doomed s [] = (s, 0)
delete_where doomed s ((key, value) ∷ entries) =
    let rest = delete_where doomed (if doomed key then delete s key else s) entries in
    (rest.0, if doomed key then suc rest.1 else rest.1)

module _ (space_id part_id : ℕ) where
  unfoldable pub delete_entries_from : MemoryKvStore → ℕ → MemoryKvStore
  unfolding delete_where
  delete_entries_from s start_index =
      let prefix = log_prefix space_id part_id in
      (delete_where (λ key. from_start start_index (index_of prefix key)) s
        (scan_prefix s prefix)).0

  unfoldable pub compact_log : MemoryKvStore → ℕ → MemoryKvStore × ℕ
  unfolding delete_where
  compact_log s up_to_index =
      let prefix = log_prefix space_id part_id in
      delete_where (λ key. up_to up_to_index (index_of prefix key)) s (scan_prefix s prefix)

  module _ (bincode : Codec RaftPersistentState) where
    unfoldable pub load_state : MemoryKvStore → StorageResult RaftPersistentState
    load_state s = elim (get s (state_key space_id part_id)) [
      | none ↦ ok default_state
      | some bytes ↦ elim (bincode.deserialize bytes) [
        | none ↦ deserialization
        | some state ↦ ok state
      ]
    ]

    unfoldable pub save_state : MemoryKvStore → RaftPersistentState → StorageResult MemoryKvStore
    save_state s state = elim (bincode.serialize state) [
      | none ↦ serialization
      | some bytes ↦ ok (put s (state_key space_id part_id) bytes)
    ]

  module _ (bincode : Codec LogEntry) where
    unfoldable pub load_entry : MemoryKvStore → ℕ → StorageResult (Option LogEntry)
    load_entry s index = elim (get s (log_key space_id part_id index)) [
      | none ↦ ok none
      | some bytes ↦ elim (bincode.deserialize bytes) [
        | none ↦ deserialization
        | some entry ↦ ok (some entry)
      ]
    ]

    unfoldable pub save_entry : MemoryKvStore → LogEntry → StorageResult MemoryKvStore
    save_entry s entry = elim (bincode.serialize entry) [
      | none ↦ serialization
      | some bytes ↦ ok (put s (log_key space_id part_id entry.index) bytes)
    ]

    unfoldable pub save_entries : MemoryKvStore → List LogEntry → StorageResult MemoryKvStore
    unfolding save_entry
    save_entries s [] = ok s
    save_entries s (entry ∷ entries) = elim (save_entry s entry) [
      | ok s' ↦ save_entries s' entries
      | serialization ↦ serialization
      | deserialization ↦ deserialization
    ]

    unfoldable pub deserialize_all : List Entry → StorageResult (List LogEntry)
    deserialize_all [] = ok []
    deserialize_all ((key, bytes) ∷ entries) =
        let rest = deserialize_all entries in
        elim (bincode.deserialize bytes) [
          | none ↦ deserialization
          | some entry ↦ elim rest [
            | ok es ↦ ok (entry ∷ es)
            | serialization ↦ serialization
            | deserialization ↦ deserialization
          ]
        ]

    -- `sort_by_key`, which is stable.
    unfoldable pub insert_by_index : LogEntry → List LogEntry → List LogEntry
    insert_by_index e [] = e ∷ []
    insert_by_index e (x ∷ xs) =
        let rest = insert_by_index e xs in if leb e.index x.index then e ∷ x ∷ xs else x ∷ rest

    unfoldable pub sort_by_index : List LogEntry → List LogEntry
    unfolding insert_by_index
    sort_by_index [] = []
    sort_by_index (e ∷ es) = insert_by_index e (sort_by_index es)

    unfoldable pub load_all_entries : MemoryKvStore → StorageResult (List LogEntry)
    unfolding deserialize_all sort_by_index
    load_all_entries s = elim (deserialize_all (scan_prefix s (log_prefix space_id part_id))) [
      | ok es ↦ ok (sort_by_index es)
      | serialization ↦ serialization
      | deserialization ↦ deserialization
    ]
