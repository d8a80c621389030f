-- ===== src/Transactions/Commits.antt =====
-- byoridb-executor/src/transaction.rs: what a commit stores, and commits of transactions without a conflict.
use byoridb.Base.{
  ℕ, ◌≡◌, ◌⊎◌, refl, sym, ap, ◌∙◌, true, false, ◌||◌, List, [], ◌∷◌, ◌++◌, Option, none, some, inl,
  inr, lookup, remove, lookup-remove, ◌==◌, if◌then◌else◌, arith, Bool-cases,
}
use byoridb.Base.Ordered as Tree
use byoridb.Base.Ordered.{IsSorted, same, insert-IsSorted}
use byoridb.Base.Ordered.{lookup-insert}
use byoridb.Base.Lex.{lex_ltb, lex-IsOrder}
use byoridb.Raft.Types.{Bytes}
use byoridb.Kv.{MemoryKvStore, Entry, get, put}
use byoridb.Kv.Scans.{same_eq, get-put}
use byoridb.Transactions.{
  Transaction, TransactionManager, ok, write, has, meets, has_conflict_with, apply_writes, commit,
}

abbrev pub find : Bytes → List Entry → Option Bytes
find key entries = Tree.lookup lex_ltb key entries

abbrev pub HasDistinctKeys : List Entry → Type 0
HasDistinctKeys [] = Unit
HasDistinctKeys ((key, value) ∷ entries) = (find key entries ≡ none) × HasDistinctKeys entries

-- `drain` yields every entry of the table once.
abbrev pub IsDrain : (List Entry → List Entry) → Type 0
IsDrain drain =
    (m : List Entry)
    → IsSorted lex_ltb m
    → HasDistinctKeys (drain m) × ((k : Bytes) → find k (drain m) ≡ find k m)

abbrev pub or_else : Option Bytes → Option Bytes → Option Bytes
or_else none b = b
or_else (some v) b = some v

get-apply_writes :
    (s : MemoryKvStore) (es : List Entry) (k : Bytes)
    → HasDistinctKeys es
    → get (apply_writes s es) k ≡ or_else (find k es) (get s k)
unfolding apply_writes Tree.lookup
get-apply_writes s [] k d = refl
get-apply_writes s ((j, v) ∷ es) k (free, d) =
    get-apply_writes (put s j v) es k d ∙ elim (Bool-cases (same lex_ltb j k)) [
      | inl e ↦
          let absent : find k es ≡ none = rw (← same_eq j k e) free in
          rw (absent, get-put s j v k, e) refl
      | inr e ↦ rw (get-put s j v k, e) refl
    ]

-- The writes are in key order, and the write set names their keys.
pub record IsTransaction (t : Transaction) : Type 0 where
  pub sorted : IsSorted lex_ltb t.writes
  pub named : (k : Bytes) → has t.write_set k ≡ false → find k t.writes ≡ none

has-append : (ks : List Bytes) (j k : Bytes) → has (ks ++ j ∷ []) k ≡ (has ks k || same lex_ltb j k)
has-append [] j k = ground arith
has-append (x ∷ ks) j k = ground (arith, has-append ks j k)

-- A write names its key, and keeps what was named.
has-write :
    (t : Transaction) (key value k : Bytes)
    → has (write t key value).write_set k ≡ (has t.write_set k || same lex_ltb key k)
unfolding write
has-write t key value k = elim (Bool-cases (has t.write_set key)) [
  | inl h ↦ elim (Bool-cases (same lex_ltb key k)) [
    | inl e ↦
        let named : has t.write_set k ≡ true = rw (← same_eq key k e) h in rw (h, e, named) refl
    | inr e ↦ rw (h, e) (ground arith)
  ]
  | inr h ↦ rw h (has-append t.write_set key k)
]

pub write-IsTransaction :
    (t : Transaction) (key value : Bytes) → IsTransaction t → IsTransaction (write t key value)
write-IsTransaction t key value h = record {
  sorted = unfold write in insert-IsSorted lex_ltb lex-IsOrder key value t.writes h.sorted;
  named = λ k u.
      let w = has-write t key value k in
      let f = lookup-insert lex_ltb lex-IsOrder key k value t.writes in
      unfold write in ground (arith, u, w, f, h.named k);
}

meets-false :
    (xs ks : List Bytes) (k : Bytes) → meets xs ks ≡ false → has xs k ≡ true → has ks k ≡ false
meets-false [] ks k m h = cc
meets-false (x ∷ xs) ks k m h = ground (arith, meets-false xs ks k, same_eq x k)

module _ (drain : List Entry → List Entry) where
  commit_found :
      (m : TransactionManager) (id : ℕ) (t : Transaction)
      → lookup id m.transactions ≡ some t
      → commit drain m id ≡ (
        record m {
          kvstore = apply_writes m.kvstore (drain t.writes);
          transactions = remove id m.transactions;
        },
        ok,
      )
  unfolding commit
  commit_found m id t f = ground (arith, f)

  -- A commit of a running transaction whose writes are in key order succeeds; every key then has
  -- the value that the transaction wrote to it last, or else the one that the store had, and
  -- exactly that transaction is no longer running, when `drain` yields every entry of such a
  -- table once.
  pub commit_lem :
      (m : TransactionManager) (id : ℕ) (t : Transaction) (k : Bytes)
      → IsDrain drain
      → lookup id m.transactions ≡ some t
      → IsSorted lex_ltb t.writes
      → ((commit drain m id).1 ≡ ok)
        × (get (commit drain m id).0.kvstore k ≡ or_else (find k t.writes) (get m.kvstore k))
        × ((other : ℕ)
            → lookup other (commit drain m id).0.transactions
              ≡ (if id == other then none else lookup other m.transactions))
  commit_lem m id t k d f h =
      let (distinct, drained) = d t.writes h in
      let stored = get-apply_writes m.kvstore (drain t.writes) k distinct ∙ rw (drained k) refl in
      rw (commit_found m id t f) (refl, stored, λ other. lookup-remove id other m.transactions)

  apart :
      (a b : Transaction) (k : Bytes)
      → IsTransaction a
      → IsTransaction b
      → has_conflict_with a b ≡ false
      → (find k a.writes ≡ none) ⊎ (find k b.writes ≡ none)
  unfolding has_conflict_with
  apart a b k ha hb c =
      let m : meets a.write_set b.write_set ≡ false = ground (arith, c) in
      elim (Bool-cases (has a.write_set k)) [
        | inl y ↦ inr (hb.named k (meets-false a.write_set b.write_set k m y))
        | inr n ↦ inl (ha.named k n)
      ]

  -- Two running transactions whose write sets name the keys of their writes, kept in key order,
  -- and between which the conflict test finds none, leave the same value under every key of the
  -- store in whichever order they are committed, when `drain` yields every entry of such a table
  -- once.
  pub commits_commute :
      (m : TransactionManager) (i j : ℕ) (a b : Transaction) (k : Bytes)
      → IsDrain drain
      → lookup i m.transactions ≡ some a
      → lookup j m.transactions ≡ some b
      → (i == j) ≡ false
      → IsTransaction a
      → IsTransaction b
      → has_conflict_with a b ≡ false
      → get (commit drain (commit drain m i).0 j).0.kvstore k
        ≡ get (commit drain (commit drain m j).0 i).0.kvstore k
  commits_commute m i j a b k d f g n ha hb c =
      let (_, first, left) = commit_lem m i a k d f ha.sorted in
      let (_, second, right) = commit_lem m j b k d g hb.sorted in
      let j_left : lookup j (commit drain m i).0.transactions ≡ some b = left j ∙ rw n g in
      let i_left : lookup i (commit drain m j).0.transactions ≡ some a =
        right i ∙ ground (arith, n, f) in
      let (_, then_b, _) = commit_lem (commit drain m i).0 j b k d j_left hb.sorted in
      let (_, then_a, _) = commit_lem (commit drain m j).0 i a k d i_left ha.sorted in
      then_b
      ∙ ap (or_else (find k b.writes)) first
      ∙ swapped (get m.kvstore k)
      ∙ sym (then_a ∙ ap (or_else (find k a.writes)) second)
    where
      swapped :
          (x : Option Bytes)
          → or_else (find k b.writes) (or_else (find k a.writes) x)
            ≡ or_else (find k a.writes) (or_else (find k b.writes) x)
      swapped x = elim (apart a b k ha hb c) [ inl e ↦ rw e refl | inr e ↦ rw e refl ]
