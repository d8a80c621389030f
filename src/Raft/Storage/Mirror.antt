-- ===== src/Raft/Storage/Mirror.antt =====
-- byoridb-storage/src/raft/storage.rs: the stored entries follow the log of the node, and the stored state
-- is read back.
use byoridb.Base.{
  ℕ, suc, ◌+◌, ◌-◌, ◌≤◌, ◌<◌, ◌≡◌, inl, inr, refl, ◌∙◌, Bool, false, not, ◌&&◌, List, [], ◌∷◌,
  Option, none, some, length, get_elem?, ltb, ◌==◌, if◌then◌else◌, arith, Bool-cases, u64_mod,
}
use byoridb.Base.Ordered.{IsSorted, same}
use byoridb.Base.Lex.{lex_ltb}
use byoridb.Raft.Types.{Bytes, LogEntry}
use byoridb.Raft.Log.Defs.{RaftLog, truncate, append, compact, last_index}
use byoridb.Raft.Log.Defs as Log
use byoridb.Raft.Log.Reads.{
  IsIndexed, Fits, get-truncate, get_lem, last_index_lem, get_elem?-beyond,
}
use byoridb.Raft.Log.Updates.{get-append, get-compact}
use byoridb.Kv.{MemoryKvStore, get, put, scan_prefix}
use byoridb.Kv.Scans.{get-put}
use byoridb.Raft.Storage.{
  RaftPersistentState, Codec, ok, state_key, log_key, log_prefix, from_start, up_to, index_of,
  delete_where, delete_entries_from, compact_log, load_state, save_state, load_entry, save_entry,
  save_entries,
}
use byoridb.Raft.Storage.Keys.{
  index_of-log_key, starts_with-log_key, same_self, same-log_key, state-log-apart,
  starts_with-state_key, get-delete_scanned,
}

get_elem?-first :
    (first i : ℕ) (e : LogEntry) (es : List LogEntry)
    → i ≡ first
    → get_elem? (e ∷ es) (i - first) ≡ some e
get_elem?-first first i e es h = let z : i - first ≡ 0 = omega arith in rw z refl

get_elem?-behind :
    (first i : ℕ) (e : LogEntry) (es : List LogEntry)
    → first < i
    → get_elem? (e ∷ es) (i - first) ≡ get_elem? es (i - suc first)
get_elem?-behind first i e es h = let z : i - first ≡ suc (i - suc first) = omega arith in rw z refl

get-beyond : (l : RaftLog) (i : ℕ) → Fits l → last_index l < i → Log.get l i ≡ none
get-beyond l i w h =
    ground
      (arith, get_lem l i w, last_index_lem l w, get_elem?-beyond l.entries (i - l.first_index))

module _ (sp pt : ℕ) (bincode : Codec LogEntry) where
  -- The store holds exactly the entries of the log.
  abbrev pub Mirrors : MemoryKvStore → RaftLog → Type 0
  Mirrors s l = (i : ℕ) → i < u64_mod → load_entry sp pt bincode s i ≡ ok (Log.get l i)

  load-eq :
      (s t : MemoryKvStore) (i : ℕ)
      → get s (log_key sp pt i) ≡ get t (log_key sp pt i)
      → load_entry sp pt bincode s i ≡ load_entry sp pt bincode t i
  unfolding load_entry
  load-eq s t i e = ground (arith, e)

  load-none :
      (s : MemoryKvStore) (i : ℕ)
      → get s (log_key sp pt i) ≡ none
      → load_entry sp pt bincode s i ≡ ok none
  unfolding load_entry
  load-none s i e = ground (arith, e)

  load-some :
      (s : MemoryKvStore) (i : ℕ) (b : Bytes) (e : LogEntry)
      → get s (log_key sp pt i) ≡ some b
      → bincode.deserialize b ≡ some e
      → load_entry sp pt bincode s i ≡ ok (some e)
  unfolding load_entry
  load-some s i b e g d = ground (arith, g, d)

  load-delete_where :
      (doomed : Option ℕ → Bool) (s : MemoryKvStore) (i : ℕ)
      → IsSorted lex_ltb s.current
      → i < u64_mod
      → load_entry sp pt bincode
          (delete_where
            (λ key. doomed (index_of (log_prefix sp pt) key))
            s
            (scan_prefix s (log_prefix sp pt))).0
          i
        ≡ (if doomed (some i) then ok none else load_entry sp pt bincode s i)
  load-delete_where doomed s i o h =
      let test : Bytes → Bool = λ key. doomed (index_of (log_prefix sp pt) key) in
      let t = (delete_where test s (scan_prefix s (log_prefix sp pt))).0 in
      let g = get-delete_scanned test s (log_prefix sp pt) (log_key sp pt i) o in
      let named = starts_with-log_key sp pt i in
      let read = index_of-log_key sp pt i h in
      elim (Bool-cases (doomed (some i))) [
        | inl d ↦ rw d (load-none t i (g ∙ rw (named, read, d) refl))
        | inr d ↦ rw d (load-eq t s i (g ∙ rw (named, read, d) refl))
      ]

  -- When a store in key order holds exactly the entries of a log whose indexes fit, the deletion
  -- of the stored entries from an index on leaves it holding exactly those of the log truncated
  -- there.
  pub delete_entries_from-Mirrors :
      (s : MemoryKvStore) (l : RaftLog) (k : ℕ)
      → IsSorted lex_ltb s.current
      → Fits l
      → Mirrors s l
      → Mirrors (delete_entries_from sp pt s k) (truncate l k)
  unfolding delete_entries_from
  delete_entries_from-Mirrors s l k o w m i h =
      load-delete_where (from_start k) s i o h ∙ ground (arith, m i h, get-truncate l k i w)

  -- When a store in key order holds exactly the entries of a log whose indexes fit, the deletion
  -- of the stored entries below `k + 1`, which has 64 bits, leaves it holding exactly those of
  -- the log compacted up to `k`.
  pub compact_log-Mirrors :
      (s : MemoryKvStore) (l : RaftLog) (k t : ℕ)
      → IsSorted lex_ltb s.current
      → Fits l
      → k + 1 < u64_mod
      → Mirrors s l
      → Mirrors (compact_log sp pt s (k + 1)).0 (compact l k t)
  unfolding compact_log
  compact_log-Mirrors s l k t o w b m i h =
      load-delete_where (up_to (k + 1)) s i o h ∙ ground (arith, m i h, get-compact l k t i w b)

  save_entry_lem :
      (s : MemoryKvStore) (e : LogEntry)
      → e.index < u64_mod
      → (t : MemoryKvStore) × (save_entry sp pt bincode s e ≡ ok t)
        × ((i : ℕ)
            → i < u64_mod
            → load_entry sp pt bincode t i
              ≡ (if e.index == i then ok (some e) else load_entry sp pt bincode s i))
  unfolding save_entry
  save_entry_lem s e b =
      let (bytes, wrote, back) = bincode.read_back e in
      let t = put s (log_key sp pt e.index) bytes in
      (
        t,
        ground (arith, wrote),
        λ i h.
            let g = get-put s (log_key sp pt e.index) bytes (log_key sp pt i) in
            let q = same-log_key sp pt e.index i b h in
            elim (Bool-cases (e.index == i)) [
              | inl y ↦ rw y (load-some t i bytes e (g ∙ rw (q, y) refl) back)
              | inr n ↦ rw n (load-eq t s i (g ∙ rw (q, n) refl))
            ],
      )

  save_entries_lem :
      (s : MemoryKvStore) (es : List LogEntry) (first : ℕ)
      → IsIndexed first es
      → first + length es ≤ u64_mod
      → (t : MemoryKvStore) × (save_entries sp pt bincode s es ≡ ok t)
        × ((i : ℕ)
            → i < u64_mod
            → load_entry sp pt bincode t i ≡ (
                if not (ltb i first) && ltb i (first + length es)
                then ok (get_elem? es (i - first))
                else load_entry sp pt bincode s i))
  unfolding save_entries
  save_entries_lem s [] first x b = (s, refl, λ i h. ground arith)
  save_entries_lem s (e ∷ es) first x b =
      let (t, wrote, reads) = save_entry_lem s e (omega (arith, x.0)) in
      let (u, saved, rest) = save_entries_lem t es (suc first) x.1 (omega arith) in
      (
        u,
        ground (arith, wrote, saved),
        λ i h. ground (
          arith,
          rest i,
          reads i,
          x.0,
          get_elem?-behind first i e es,
          get_elem?-first first i e es,
        ),
      )

  -- When a store holds exactly the entries of a log whose indexes fit, and new contiguous entries
  -- behind its end fit too, saving them succeeds and leaves the store holding exactly the entries
  -- of the log with them appended.
  pub save_entries-Mirrors :
      (s : MemoryKvStore) (l : RaftLog) (es : List LogEntry)
      → Fits l
      → last_index l + 1 + length es < u64_mod
      → IsIndexed (last_index l + 1) es
      → Mirrors s l
      → (t : MemoryKvStore) × (save_entries sp pt bincode s es ≡ ok t) × Mirrors t (append l es)
  save_entries-Mirrors s l es w b x m =
      let (t, saved, reads) = save_entries_lem s es (last_index l + 1) x (omega arith) in
      (
        t,
        saved,
        λ i h.
            reads i h
            ∙ ground (
              arith,
              m i h,
              get-append l es i w b,
              get_elem?-beyond es (i - (last_index l + 1)),
              get-beyond l i w,
            ),
      )

  module _ (states : Codec RaftPersistentState) where
    same-state :
        (s t : MemoryKvStore)
        → get s (state_key sp pt) ≡ get t (state_key sp pt)
        → load_state sp pt states s ≡ load_state sp pt states t
    unfolding load_state
    same-state s t e = ground (arith, e)

    state-found :
        (s : MemoryKvStore) (b : Bytes) (a : RaftPersistentState)
        → get s (state_key sp pt) ≡ some b
        → states.deserialize b ≡ some a
        → load_state sp pt states s ≡ ok a
    unfolding load_state
    state-found s b a g d = ground (arith, g, d)

    -- Saving the state succeeds, gives it back when loaded, and leaves the stored entries.
    pub save_state_lem :
        (s : MemoryKvStore) (l : RaftLog) (a : RaftPersistentState)
        → Mirrors s l
        → (t : MemoryKvStore) × (save_state sp pt states s a ≡ ok t)
          × (load_state sp pt states t ≡ ok a)
          × Mirrors t l
    unfolding save_state
    save_state_lem s l a m =
        let (bytes, wrote, back) = states.read_back a in
        let t = put s (state_key sp pt) bytes in
        (
          t,
          ground (arith, wrote),
          state-found t bytes a
              (get-put s (state_key sp pt) bytes (state_key sp pt)
                ∙ rw (same_self (state_key sp pt)) refl)
              back,
          λ i h.
              load-eq t s i
                (get-put s (state_key sp pt) bytes (log_key sp pt i) ∙ rw (state-log-apart' i) refl)
              ∙ m i h,
        )
      where
        state-log-apart' : (i : ℕ) → same lex_ltb (state_key sp pt) (log_key sp pt i) ≡ false
        state-log-apart' i = ground (arith, state-log-apart sp pt i)

    -- The deletion of log entries leaves the stored term and vote.
    pub state-kept :
        (doomed : Bytes → Bool) (s : MemoryKvStore)
        → IsSorted lex_ltb s.current
        → load_state sp pt states (delete_where doomed s (scan_prefix s (log_prefix sp pt))).0
          ≡ load_state sp pt states s
    state-kept doomed s o =
        same-state (delete_where doomed s (scan_prefix s (log_prefix sp pt))).0 s (
          get-delete_scanned doomed s (log_prefix sp pt) (state_key sp pt) o
          ∙ rw (starts_with-state_key sp pt) refl)
