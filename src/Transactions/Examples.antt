-- ===== src/Transactions/Examples.antt =====
-- Concrete runs of the theorems on transactions, with a `drain` in key order.
use byoridb.Base.{
  ℕ, ◌≡◌, refl, false, List, [], ◌∷◌, none, some, lookup, ◌==◌, if◌then◌else◌, arith,
}
use byoridb.Base.Ordered as Tree
use byoridb.Base.Ordered.{IsSorted, AllAbove}
use byoridb.Base.Lex.{lex_ltb}
use byoridb.Raft.Types.{Bytes}
use byoridb.Kv as Kv
use byoridb.Kv.{MemoryKvStore, Entry, get}
use byoridb.Transactions.{
  Transaction, TransactionManager, ok, read_committed, new_transaction, write, has_conflict_with,
  commit,
}
use byoridb.Transactions.Commits.{
  find, HasDistinctKeys, IsDrain, or_else, IsTransaction, write-IsTransaction, commit_lem,
  commits_commute,
}

find-above : (key : Bytes) (m : List Entry) → AllAbove lex_ltb key m → find key m ≡ none
unfolding Tree.lookup
find-above key [] h = refl
find-above key ((j, v) ∷ m) h = ground (arith, h, find-above key m)

sorted-HasDistinctKeys : (m : List Entry) → IsSorted lex_ltb m → HasDistinctKeys m
unfolding IsSorted
sorted-HasDistinctKeys [] h = tt
sorted-HasDistinctKeys ((j, v) ∷ m) (above, h) = (find-above j m above, sorted-HasDistinctKeys m h)

abbrev in_order : List Entry → List Entry
in_order m = m

in_order-IsDrain : IsDrain in_order
in_order-IsDrain m h = (sorted-HasDistinctKeys m h, λ k. refl)

abbrev first : Transaction
first = write (new_transaction 1 read_committed 50) (5 ∷ []) (7 ∷ [])

abbrev second : Transaction
second = write (new_transaction 2 read_committed 60) (6 ∷ []) (8 ∷ [])

empty-IsTransaction : (id now : ℕ) → IsTransaction (new_transaction id read_committed now)
unfolding IsSorted Tree.lookup
empty-IsTransaction id now = record { sorted = tt; named = λ k n. refl }

first-IsTransaction : IsTransaction first
first-IsTransaction = write-IsTransaction _ (5 ∷ []) (7 ∷ []) (empty-IsTransaction 1 50)

second-IsTransaction : IsTransaction second
second-IsTransaction = write-IsTransaction _ (6 ∷ []) (8 ∷ []) (empty-IsTransaction 2 60)

abbrev manager : TransactionManager
manager = record { kvstore = Kv.new; transactions = (1, first) ∷ (2, second) ∷ []; next_id = 3 }

one_found : lookup 1 manager.transactions ≡ some first
unfolding lookup
one_found = refl

two_found : lookup 2 manager.transactions ≡ some second
unfolding lookup
two_found = refl

no_conflict : has_conflict_with first second ≡ false
unfolding has_conflict_with write lex_ltb
no_conflict = refl

commit_example :
    ((commit in_order manager 1).1 ≡ ok)
    × (get (commit in_order manager 1).0.kvstore (5 ∷ [])
        ≡ or_else (find (5 ∷ []) first.writes) (get manager.kvstore (5 ∷ [])))
    × ((other : ℕ)
        → lookup other (commit in_order manager 1).0.transactions
          ≡ (if 1 == other then none else lookup other manager.transactions))
commit_example =
    commit_lem in_order manager 1 first (5 ∷ []) in_order-IsDrain one_found
      first-IsTransaction.sorted

commits_commute_example :
    get (commit in_order (commit in_order manager 1).0 2).0.kvstore (6 ∷ [])
    ≡ get (commit in_order (commit in_order manager 2).0 1).0.kvstore (6 ∷ [])
commits_commute_example =
    commits_commute in_order manager 1 2 first second (6 ∷ []) in_order-IsDrain one_found two_found
      refl first-IsTransaction second-IsTransaction no_conflict
