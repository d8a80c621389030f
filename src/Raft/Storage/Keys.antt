-- ===== src/Raft/Storage/Keys.antt =====
-- byoridb-storage/src/raft/storage.rs: the keys of the state and of the log entries, and the loop that
-- deletes some of the scanned keys.
use byoridb.Base.{
  ℕ, ◌+◌, ◌<◌, ◌≡◌, inl, inr, refl, sym, ap, ◌∙◌, Bool, true, false, ◌&&◌, List, [], ◌∷◌, ◌++◌,
  none, some, length, length-append, map, take_all, drop_prefix, leb, ◌==◌, if◌then◌else◌, arith,
  Bool-cases, u64_mod,
}
use byoridb.Base.Ordered.{IsSorted, same}
use byoridb.Base.Lex.{lex_ltb, lex-IsOrder, starts_with, starts_with-append}
use byoridb.Raft.Types.{Bytes}
use byoridb.Keys.BigEndian.{length-be_bytes, read_be-be_bytes, write_u64}
use byoridb.Kv.{MemoryKvStore, Entry, get, delete, scan_prefix}
use byoridb.Kv.Scans.{named, named-keys, same_eq, get-delete, with_prefix, scan_prefix_lem}
use byoridb.Raft.Storage.{state_key, log_prefix, log_key, index_of, delete_where}

pub index_of-log_key :
    (s p i : ℕ) → i < u64_mod → index_of (log_prefix s p) (log_key s p i) ≡ some i
unfolding index_of log_key
index_of-log_key s p i h =
    let prefix = log_prefix s p in
    let n8 = length-be_bytes 8 i in
    let long : leb (length prefix + 8) (length (prefix ++ write_u64 i)) ≡ true =
      ground (arith, length-append prefix (write_u64 i), n8) in
    rw
      (
        long,
        drop_prefix (length prefix) prefix (write_u64 i) refl,
        take_all 8 (write_u64 i) (omega (arith, n8)),
        read_be-be_bytes 8 i (omega arith),
      )
      refl

pub starts_with-log_key : (s p i : ℕ) → starts_with (log_prefix s p) (log_key s p i) ≡ true
unfolding log_key
starts_with-log_key s p i = starts_with-append (log_prefix s p) (write_u64 i)

pub same_self : (k : Bytes) → same lex_ltb k k ≡ true
same_self k = ground (arith, lex-IsOrder.irrefl k)

-- Two entries of a log have one key exactly when they have one index.
pub same-log_key :
    (s p i j : ℕ)
    → i < u64_mod
    → j < u64_mod
    → same lex_ltb (log_key s p i) (log_key s p j) ≡ (i == j)
same-log_key s p i j h k = elim (Bool-cases (same lex_ltb (log_key s p i) (log_key s p j))) [
  | inl e ↦
      let q : some i ≡ some j =
        sym (index_of-log_key s p i h)
        ∙ ap (index_of (log_prefix s p)) (same_eq (log_key s p i) (log_key s p j) e)
        ∙ index_of-log_key s p j k in
      e ∙ ground arith
  | inr n ↦ elim (Bool-cases (i == j)) [
    | inl q ↦
        let r : i ≡ j = ground arith in
        absurd (false_true (sym n ∙ rw r (same_self (log_key s p j))))
    | inr q ↦ n ∙ sym q
  ]
]
  where
    false_true : false ≡ true → ⊥
    false_true e = cc

pub state-log-apart : (s p i : ℕ) → same lex_ltb (log_key s p i) (state_key s p) ≡ false
unfolding log_key log_prefix state_key lex_ltb
state-log-apart s p i = refl

pub starts_with-state_key : (s p : ℕ) → starts_with (log_prefix s p) (state_key s p) ≡ false
unfolding log_prefix state_key starts_with
starts_with-state_key s p = refl

get-delete_where :
    (doomed : Bytes → Bool) (s : MemoryKvStore) (es : List Entry) (k : Bytes)
    → get (delete_where doomed s es).0 k
      ≡ (if named (map (λ e. e.0) es) k && doomed k then none else get s k)
unfolding delete_where
get-delete_where doomed s [] k = refl
get-delete_where doomed s ((j, v) ∷ es) k = elim (Bool-cases (doomed j)) [
  | inl d ↦
      rw d
        (ground (arith, get-delete_where doomed (delete s j) es k, get-delete s j k, same_eq j k))
  | inr d ↦ rw d (ground (arith, get-delete_where doomed s es k, same_eq j k))
]

-- After the loop over a prefix its doomed keys are gone, and every other key is as before.
pub get-delete_scanned :
    (doomed : Bytes → Bool) (s : MemoryKvStore) (p k : Bytes)
    → IsSorted lex_ltb s.current
    → get (delete_where doomed s (scan_prefix s p)).0 k
      ≡ (if starts_with p k && doomed k then none else get s k)
get-delete_scanned doomed s p k o = rw (scan_prefix_lem s p o) (
    unfold get in
    ground (arith, get-delete_where doomed s (with_prefix p s.current) k, named-keys p s.current k))
