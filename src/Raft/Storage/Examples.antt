-- ===== src/Raft/Storage/Examples.antt =====
-- Concrete runs of the theorems on the persistent state, with a plain encoding in the place of bincode.
use byoridb.Base.{
  ℕ, zero, suc, ◌≡◌, ◌<◌, ◌+◌, ◌∙◌, refl, sym, ap, subst, List, [], ◌∷◌, ◌++◌, Option, none, some,
  length, take, drop, take-append, drop-append, arith, add64, sub64, u64_mod,
}
use byoridb.Base.Ordered.{IsSorted, lookup, insert-IsSorted}
use byoridb.Base.Lex.{lex_ltb, lex-IsOrder}
use byoridb.Raft.Types.{
  Bytes, Command, noop, config_change, add_node_change, remove_node_change, LogEntry,
}
use byoridb.Raft.Types as Types
use byoridb.Raft.Log.Defs.{RaftLog, append, truncate, compact, last_index}
use byoridb.Raft.Log.Defs as Log
use byoridb.Raft.Log.Reads.{Fits, IsIndexed}
use byoridb.Kv.{MemoryKvStore, new, put, get}
use byoridb.Raft.Storage.{
  RaftPersistentState, Codec, ok, save_entries, save_entry, load_entry, save_state, load_state,
  log_key, delete_entries_from,
}
use byoridb.Raft.Storage.Mirror.{
  Mirrors, save_entries-Mirrors, delete_entries_from-Mirrors, save_state_lem,
}

abbrev command_bytes : Command → Bytes
command_bytes noop = 0 ∷ []
command_bytes (Types.put s p k v) = 1 ∷ s ∷ p ∷ length k ∷ k ++ v
command_bytes (Types.delete s p k) = 2 ∷ s ∷ p ∷ k
command_bytes (config_change (add_node_change id addr)) = 3 ∷ id ∷ addr
command_bytes (config_change (remove_node_change id)) = 4 ∷ id ∷ []

abbrev command_of : Bytes → Option Command
command_of (zero ∷ []) = some noop
command_of (suc zero ∷ s ∷ p ∷ n ∷ b) = some (Types.put s p (take n b) (drop n b))
command_of (suc (suc zero) ∷ s ∷ p ∷ k) = some (Types.delete s p k)
command_of (suc (suc (suc zero)) ∷ id ∷ addr) = some (config_change (add_node_change id addr))
command_of (suc (suc (suc (suc zero))) ∷ id ∷ []) = some (config_change (remove_node_change id))
command_of bytes = none

command_of_lem : (c : Command) → command_of (command_bytes c) ≡ some c
command_of_lem noop = refl
command_of_lem (Types.put s p k v) = rw (take-append k v, drop-append k v) refl
command_of_lem (Types.delete s p k) = refl
command_of_lem (config_change (add_node_change id addr)) = refl
command_of_lem (config_change (remove_node_change id)) = refl

abbrev entry_bytes : LogEntry → Option Bytes
entry_bytes e = some (e.term ∷ e.index ∷ command_bytes e.command)

abbrev with_command : ℕ → ℕ → Option Command → Option LogEntry
with_command t i none = none
with_command t i (some c) = some (record { term = t; index = i; command = c })

abbrev entry_of : Bytes → Option LogEntry
entry_of (t ∷ i ∷ b) = with_command t i (command_of b)
entry_of bytes = none

abbrev entries : Codec LogEntry
entries = record {
  serialize = entry_bytes;
  deserialize = entry_of;
  read_back = λ e. (_, refl, ap (with_command e.term e.index) (command_of_lem e.command));
}

abbrev vote_bytes : Option ℕ → Bytes
vote_bytes none = []
vote_bytes (some v) = v ∷ []

abbrev state_of : Bytes → Option RaftPersistentState
state_of (t ∷ []) = some (record { current_term = t; voted_for = none })
state_of (t ∷ v ∷ []) = some (record { current_term = t; voted_for = some v })
state_of bytes = none

state_of_lem :
    (t : ℕ) (v : Option ℕ)
    → state_of (t ∷ vote_bytes v) ≡ some (record { current_term = t; voted_for = v })
state_of_lem t none = refl
state_of_lem t (some v) = refl

abbrev states : Codec RaftPersistentState
states = record {
  serialize = λ a. some (a.current_term ∷ vote_bytes a.voted_for);
  deserialize = state_of;
  read_back = λ a. (_, refl, state_of_lem a.current_term a.voted_for);
}

abbrev entry : ℕ → ℕ → LogEntry
entry t i = record { term = t; index = i; command = noop }

abbrev empty_log : RaftLog
empty_log = record { entries = []; first_index = 1; snapshot_term = 0 }

abbrev two_entries : List LogEntry
two_entries = entry 1 1 ∷ entry 2 2 ∷ []

new_load : (i : ℕ) → load_entry 1 2 entries new i ≡ ok none
unfolding load_entry get lookup
new_load i = refl

get-empty_log : (i : ℕ) → Log.get empty_log i ≡ none
unfolding Log.get last_index
get-empty_log i = ground arith

new-Mirrors : Mirrors 1 2 entries new empty_log
new-Mirrors i h = new_load i ∙ ap ok (sym (get-empty_log i))

new-small : last_index empty_log + 1 + length two_entries < u64_mod
unfolding last_index add64 sub64
new-small = omega arith

new-IsIndexed : IsIndexed (last_index empty_log + 1) two_entries
unfolding last_index add64 sub64
new-IsIndexed = (refl, (refl, tt))

save_entries-Mirrors_example :
    (t : MemoryKvStore) × (save_entries 1 2 entries new two_entries ≡ ok t)
    × Mirrors 1 2 entries t (append empty_log two_entries)
save_entries-Mirrors_example =
    save_entries-Mirrors 1 2 entries new empty_log two_entries (omega arith) new-small new-IsIndexed
      new-Mirrors

abbrev stored : MemoryKvStore
stored = put (put new (log_key 1 2 1) (1 ∷ 1 ∷ 0 ∷ [])) (log_key 1 2 2) (2 ∷ 2 ∷ 0 ∷ [])

stored-IsSorted : IsSorted lex_ltb stored.current
unfolding IsSorted put
stored-IsSorted =
    insert-IsSorted lex_ltb lex-IsOrder _ _ _ (insert-IsSorted lex_ltb lex-IsOrder _ _ [] tt)

runs : save_entries 1 2 entries new two_entries ≡ ok stored
unfolding save_entries save_entry
runs = refl

-- The store that the entries are saved in is the one above.
saved_store : (t : MemoryKvStore) → save_entries 1 2 entries new two_entries ≡ ok t → t ≡ stored
saved_store t e = let q : ok t ≡ ok stored = sym e ∙ runs in cc

stored-Mirrors : Mirrors 1 2 entries stored (append empty_log two_entries)
stored-Mirrors =
    let (t, e, m) =
      save_entries-Mirrors 1 2 entries new empty_log two_entries (omega arith) new-small
        new-IsIndexed new-Mirrors in
    subst (λ u. Mirrors 1 2 entries u (append empty_log two_entries)) (saved_store t e) m

abbrev log : RaftLog
log = append empty_log two_entries

log-Fits : Fits log
unfolding append
log-Fits = omega arith

delete_entries_from-Mirrors_example :
    Mirrors 1 2 entries (delete_entries_from 1 2 stored 2) (truncate log 2)
delete_entries_from-Mirrors_example =
    delete_entries_from-Mirrors 1 2 entries stored log 2 stored-IsSorted log-Fits stored-Mirrors

abbrev vote : RaftPersistentState
vote = record { current_term = 4; voted_for = some 9 }

save_state_example :
    (t : MemoryKvStore) × (save_state 1 2 states stored vote ≡ ok t)
    × (load_state 1 2 states t ≡ ok vote)
    × Mirrors 1 2 entries t log
save_state_example = save_state_lem 1 2 entries states stored log vote stored-Mirrors
