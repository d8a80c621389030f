-- ===== src/Transactions.antt =====
-- byoridb-executor/src/transaction.rs: `Transaction` and `TransactionManager`, over the in-memory key-value
-- store. A `String` is its bytes. An `i64` id is its bit pattern. The `HashMap` of the writes is kept in key
-- order, and the order in which `drain` yields its entries is a parameter; the clock is an argument.
pub mod Commits
pub mod Versions
mod Examples
use byoridb.Base.{
  ℕ, ◌+◌, ◌%◌, Bool, true, false, ◌||◌, ◌&&◌, List, [], ◌∷◌, ◌++◌, Option, none, some, HashMap,
  lookup, insert, remove, if◌then◌else◌, u64_mod, add64, ◌==◌,
}
use byoridb.Base.Ordered as Tree
use byoridb.Base.Ordered.{same}
use byoridb.Base.Lex.{lex_ltb}
use byoridb.Raft.Types.{Bytes}
use byoridb.Kv as Kv
use byoridb.Kv.{MemoryKvStore, Entry}

pub data IsolationLevel : Type 0 where
  read_committed repeatable_read serializable : IsolationLevel

pub record Transaction : Type 0 where
  pub id : ℕ
  pub isolation_level : IsolationLevel
  pub writes : List Entry
  pub read_set : List Bytes
  pub write_set : List Bytes
  pub start_time : ℕ

-- The manager with the store that its context holds.
pub record TransactionManager : Type 0 where
  pub kvstore : MemoryKvStore
  pub transactions : HashMap Transaction
  pub next_id : ℕ

pub data TransactionOutcome : Type 0 where
  ok not_found : TransactionOutcome

abbrev pub new_transaction : ℕ → IsolationLevel → ℕ → Transaction
new_transaction id level now = record {
  id = id;
  isolation_level = level;
  writes = [];
  read_set = [];
  write_set = [];
  start_time = now;
}

abbrev pub new : MemoryKvStore → TransactionManager
new kvstore = record { kvstore = kvstore; transactions = []; next_id = 1 }

-- `contains` of a vector of keys.
abbrev pub has : List Bytes → Bytes → Bool
has [] key = false
has (x ∷ xs) key = let rest = has xs key in if same lex_ltb x key then true else rest

unfoldable pub write : Transaction → Bytes → Bytes → Transaction
write t key value = record t {
  writes = Tree.insert lex_ltb key value t.writes;
  write_set = if has t.write_set key then t.write_set else t.write_set ++ key ∷ [];
}

unfoldable pub read : Transaction → Bytes → Transaction
read t key = record t {
  read_set = if has t.read_set key then t.read_set else t.read_set ++ key ∷ [];
}

-- A loop over the first list, which ends at a key of the second.
abbrev pub meets : List Bytes → List Bytes → Bool
meets [] keys = false
meets (x ∷ xs) keys = let rest = meets xs keys in if has keys x then true else rest

abbrev pub is_serializable : IsolationLevel → Bool
is_serializable read_committed = false
is_serializable repeatable_read = false
is_serializable serializable = true

unfoldable pub has_conflict_with : Transaction → Transaction → Bool
has_conflict_with t other =
    if meets t.write_set other.write_set
    then true
    else is_serializable t.isolation_level && meets t.write_set other.read_set

unfoldable pub begin : TransactionManager → IsolationLevel → ℕ → TransactionManager × ℕ
begin m level now = (
  record m {
    transactions = insert m.next_id (new_transaction m.next_id level now) m.transactions;
    next_id = (m.next_id + 1) % u64_mod;
  },
  m.next_id,
)

-- The loop of `commit`.
unfoldable pub apply_writes : MemoryKvStore → List Entry → MemoryKvStore
apply_writes s [] = s
apply_writes s ((key, value) ∷ entries) = apply_writes (Kv.put s key value) entries

unfoldable pub commit :
    (List Entry → List Entry) → TransactionManager → ℕ → TransactionManager × TransactionOutcome
unfolding apply_writes
commit drain m id = elim (lookup id m.transactions) [
  | none ↦ (m, not_found)
  | some t ↦ (
    record m {
      kvstore = apply_writes m.kvstore (drain t.writes);
      transactions = remove id m.transactions;
    },
    ok,
  )
]

unfoldable pub rollback : TransactionManager → ℕ → TransactionManager × TransactionOutcome
rollback m id = elim (lookup id m.transactions) [
  | none ↦ (m, not_found)
  | some t ↦ (record m { transactions = remove id m.transactions }, ok)
]

pub record OptimisticConcurrencyControl : Type 0 where
  pub version : List (Bytes × ℕ)

abbrev pub version_or_zero : Option ℕ → ℕ
version_or_zero none = 0
version_or_zero (some v) = v

unfoldable pub get_version : OptimisticConcurrencyControl → Bytes → ℕ
get_version c key = version_or_zero (Tree.lookup lex_ltb key c.version)

unfoldable pub increment_version :
    OptimisticConcurrencyControl → Bytes → OptimisticConcurrencyControl × ℕ
unfolding get_version
increment_version c key =
    let current = get_version c key in
    (record c { version = Tree.insert lex_ltb key (add64 current 1) c.version }, add64 current 1)

unfoldable pub check_version : OptimisticConcurrencyControl → Bytes → ℕ → Bool
check_version c key expected = get_version c key == expected
