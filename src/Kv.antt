-- ===== src/Kv.antt =====
-- byoridb-kvstore/src/store.rs: the in-memory key-value store `MemoryKVStore`, with the methods that it takes
-- over from the trait `KVStore`. A `BTreeMap` is a list in key order. Each method holds its lock to the
-- end and does not fail, so a method is one step; the file store of the library redb is not modelled.
pub mod Versions
pub mod Scans
pub mod Visits
pub mod AsOf
pub mod Newest
mod Examples
use byoridb.Base.{
  ℕ, suc, ◌+◌, ◌-◌, ◌≤◌, Bool, true, false, not, ◌&&◌, List, [], ◌∷◌, ◌++◌, Option, none, some,
  length, take, drop, retain, map, chunks, ltb, leb, ◌==◌, if◌then◌else◌, u64_mod,
}
use byoridb.Base.Ordered as Tree
use byoridb.Base.Lex.{lex_ltb, starts_with, take_while}
use byoridb.Raft.Types.{Bytes}
use byoridb.Keys.BigEndian.{ℤ, as_u64, as_i64, be_bytes, read_be, write_i64, read_i64}
use byoridb.Keys.Values.{flip_sign}

pub record VersionRecord : Type 0 where
  pub valid_from : ℤ
  pub valid_to : ℤ
  pub tx : ℤ
  pub value : Bytes

abbrev pub Entry : Type 0
Entry = Bytes × Bytes

pub record MemoryKvStore : Type 0 where
  pub current : List Entry
  pub history : List Entry

abbrev pub new : MemoryKvStore
new = record { current = []; history = [] }

-- `<` on `i64`.
unfoldable pub lt_i64 : ℤ → ℤ → Bool
lt_i64 (ℤ.pos a) (ℤ.pos b) = ltb a b
lt_i64 (ℤ.pos a) (ℤ.negsuc b) = false
lt_i64 (ℤ.negsuc a) (ℤ.pos b) = true
lt_i64 (ℤ.negsuc a) (ℤ.negsuc b) = ltb b a

-- `!((v as u64) ^ (1u64 << 63))`
unfoldable pub desc_bits : ℤ → ℕ
desc_bits v = u64_mod - 1 - flip_sign (as_u64 v)

unfoldable pub desc_i64 : ℤ → Bytes
unfolding desc_bits
desc_i64 v = be_bytes 8 (desc_bits v)

unfoldable pub undesc_i64 : Bytes → ℤ
undesc_i64 b = as_i64 (flip_sign (u64_mod - 1 - read_be b))

unfoldable pub history_prefix : Bytes → Bytes
history_prefix entity_key = entity_key ++ 0 ∷ []

unfoldable pub history_key : Bytes → ℤ → ℤ → Bytes
unfolding history_prefix
history_key entity_key valid_from tx =
    history_prefix entity_key ++ (desc_i64 valid_from ++ desc_i64 tx)

unfoldable pub parse_history_key_times : Bytes → Option (ℤ × ℤ)
parse_history_key_times key =
    if ltb (length key) 16
    then none
    else some
        (undesc_i64 (take 8 (drop (length key - 16) key)), undesc_i64 (drop (length key - 8) key))

unfoldable pub encode_history_value : ℤ → Bytes → Bytes
encode_history_value valid_to payload = write_i64 valid_to ++ payload

unfoldable pub decode_history_value : Bytes → Option (ℤ × Bytes)
decode_history_value v = if ltb (length v) 8 then none else some (read_i64 (take 8 v), drop 8 v)

unfoldable pub get : MemoryKvStore → Bytes → Option Bytes
get s key = Tree.lookup lex_ltb key s.current

unfoldable pub put : MemoryKvStore → Bytes → Bytes → MemoryKvStore
put s key value = record s { current = Tree.insert lex_ltb key value s.current }

unfoldable pub put_if_absent : MemoryKvStore → Bytes → Bytes → MemoryKvStore × Option Bytes
unfolding get put
put_if_absent s key value = elim (get s key) [
  | some existing ↦ (s, some existing)
  | none ↦ (put s key value, none)
]

unfoldable pub delete : MemoryKvStore → Bytes → MemoryKvStore
delete s key = record s { current = Tree.remove lex_ltb key s.current }

unfoldable pub batch_put : MemoryKvStore → List Entry → MemoryKvStore
unfolding put
batch_put s [] = s
batch_put s ((key, value) ∷ pairs) = batch_put (put s key value) pairs

unfoldable pub batch_delete : MemoryKvStore → List Bytes → MemoryKvStore
unfolding delete
batch_delete s [] = s
batch_delete s (key ∷ keys) = batch_delete (delete s key) keys

unfoldable pub put_version : MemoryKvStore → Bytes → ℤ → ℤ → ℤ → Bytes → MemoryKvStore
put_version s entity_key valid_from valid_to tx value = record s {
  history =
      Tree.insert lex_ltb (history_key entity_key valid_from tx)
        (encode_history_value valid_to value) s.history;
}

unfoldable pub batch_put_version : MemoryKvStore → List (Bytes × VersionRecord) → MemoryKvStore
unfolding put_version
batch_put_version s [] = s
batch_put_version s ((ek, v) ∷ versions) =
    batch_put_version (put_version s ek v.valid_from v.valid_to v.tx v.value) versions

unfoldable pub batch_apply :
    MemoryKvStore → List Entry → List Bytes → List (Bytes × VersionRecord) → MemoryKvStore
unfolding batch_put batch_delete batch_put_version
batch_apply s puts deletes versions =
    batch_put_version (batch_delete (batch_put s puts) deletes) versions

-- `range(low..).take_while(|(k, _)| k.starts_with(prefix))`
unfoldable pub prefix_range : Bytes → Bytes → List Entry → List Entry
prefix_range prefix low entries =
    take_while (λ e. starts_with prefix e.0) (Tree.range_from lex_ltb low entries)

unfoldable pub scan_prefix : MemoryKvStore → Bytes → List Entry
unfolding prefix_range
scan_prefix s prefix = prefix_range prefix prefix s.current

-- `take(limit.unwrap_or(usize::MAX))`; no list is longer than `usize::MAX`.
abbrev pub limited : Option ℕ → List Entry → List Entry
limited none entries = entries
limited (some n) entries = take n entries

unfoldable pub scan_range : MemoryKvStore → Bytes → Bytes → Option ℕ → List Entry
scan_range s start end limit =
    if not (lex_ltb start end)
    then []
    else limited limit (retain (λ e. lex_ltb e.0 end) (Tree.range_from lex_ltb start s.current))

unfoldable pub batch_get : MemoryKvStore → List Bytes → List (Option Bytes)
batch_get s keys = map (get s) keys

unfoldable pub scan_with_filter :
    MemoryKvStore → Bytes → (Bytes → Bytes → Bool) → Option ℕ → List Entry
unfolding prefix_range
scan_with_filter s prefix filter limit =
    limited limit (retain (λ e. filter e.0 e.1) (prefix_range prefix prefix s.current))

-- `KVStore::count_prefix`, which no other method of the in-memory store replaces.
unfoldable pub count_prefix : MemoryKvStore → Bytes → ℕ
count_prefix s prefix = length (scan_prefix s prefix)

-- `KVStore::delete_prefix_chunked`: the deletions chunk by chunk, and their number.
unfoldable pub batch_delete_all : MemoryKvStore → List (List Bytes) → MemoryKvStore
unfolding batch_delete
batch_delete_all s [] = s
batch_delete_all s (keys ∷ rest) = batch_delete_all (batch_delete s keys) rest

unfoldable pub delete_prefix_chunked : MemoryKvStore → Bytes → ℕ → MemoryKvStore × ℕ
unfolding batch_delete_all scan_prefix
delete_prefix_chunked s prefix chunk =
    let entries = scan_prefix s prefix in
    let size : ℕ = if leb 1 chunk then chunk else 1 in
    (batch_delete_all s (chunks size (map (λ e. e.0) entries)), length entries)

unfoldable pub decode_entries : List Entry → List VersionRecord
decode_entries [] = []
decode_entries ((k, v) ∷ entries) =
    let rest = decode_entries entries in
    elim (parse_history_key_times k) [
      | none ↦ rest
      | some (valid_from, tx) ↦ elim (decode_history_value v) [
        | none ↦ rest
        | some (valid_to, value) ↦
            (record { valid_from = valid_from; valid_to = valid_to; tx = tx; value = value }) ∷ rest
      ]
    ]

unfoldable pub scan_history : MemoryKvStore → Bytes → List VersionRecord
unfolding decode_entries prefix_range
scan_history s entity_key =
    decode_entries (prefix_range (history_prefix entity_key) (history_prefix entity_key) s.history)

-- The loop of the in-memory store's `get_as_of`, over the entries up to the `break`.
unfoldable pub first_visible : List Entry → ℤ → ℤ → Option Bytes
first_visible [] valid_at tx_at = none
first_visible ((k, v) ∷ entries) valid_at tx_at =
    let rest = first_visible entries valid_at tx_at in
    elim (parse_history_key_times k) [
      | none ↦ rest
      | some (valid_from, tx) ↦ elim (decode_history_value v) [
        | none ↦ rest
        | some (valid_to, value) ↦
            if not (lt_i64 tx_at tx) && lt_i64 valid_at valid_to then some value else rest
      ]
    ]

unfoldable pub get_as_of : MemoryKvStore → Bytes → ℤ → ℤ → Option Bytes
unfolding first_visible prefix_range
get_as_of s entity_key valid_at tx_at =
    first_visible
      (prefix_range (history_prefix entity_key) (history_key entity_key valid_at tx_at) s.history)
      valid_at tx_at

-- `(b.valid_from, b.tx) >= (v.valid_from, v.tx)`
unfoldable pub not_older : VersionRecord → VersionRecord → Bool
not_older b v =
    if lt_i64 v.valid_from b.valid_from
    then true
    else if lt_i64 b.valid_from v.valid_from
    then false
    else not (lt_i64 b.tx v.tx)

unfoldable pub covers : VersionRecord → ℤ → ℤ → Bool
covers v valid_at tx_at =
    not (lt_i64 tx_at v.tx) && (not (lt_i64 valid_at v.valid_from) && lt_i64 valid_at v.valid_to)

-- The choice between the best version so far and one that covers the instant.
abbrev pub better : Option VersionRecord → VersionRecord → Option VersionRecord
better none v = some v
better (some b) v = if not_older b v then some b else some v

unfoldable pub best_version :
    Option VersionRecord → List VersionRecord → ℤ → ℤ → Option VersionRecord
unfolding covers not_older
best_version best [] valid_at tx_at = best
best_version best (v ∷ versions) valid_at tx_at =
    best_version (if covers v valid_at tx_at then better best v else best) versions valid_at tx_at

abbrev pub value_of : Option VersionRecord → Option Bytes
value_of none = none
value_of (some v) = some v.value

-- The trait's own `get_as_of`, over the whole history of the entity.
unfoldable pub get_as_of_default : MemoryKvStore → Bytes → ℤ → ℤ → Option Bytes
unfolding best_version
get_as_of_default s entity_key valid_at tx_at =
    value_of (best_version none (scan_history s entity_key) valid_at tx_at)
