-- ===== src/Index/Drops.antt =====
-- byoridb-storage/src/index.rs: what is left in the store after an index has been dropped with its data.
use byoridb.Base.{
  ℕ, ◌≡◌, refl, ap, ◌∙◌, Bool, false, ◌||◌, List, [], ◌∷◌, none, some, map, if◌then◌else◌, arith,
}
use byoridb.Base.Ordered.{IsSorted, same, remove-IsSorted}
use byoridb.Base.Lex.{lex_ltb, lex-IsOrder, starts_with}
use byoridb.Raft.Types.{Bytes}
use byoridb.Keys.Layout.{tag_index_prefix, edge_index_prefix}
use byoridb.Kv.{MemoryKvStore, Entry, get, delete, scan_prefix}
use byoridb.Kv.Scans.{named, named-keys, get-delete, scan_prefix_lem}
use byoridb.Raft.Storage.{Codec}
use byoridb.Index.{
  IndexDef, IndexManager, IndexResult, ok, is_tag, index_def_key, ensure_loaded, get_index,
  delete_keys, delete_all_index_entries, delete_persisted_def, unregister, drop_index_with_data,
}

-- The keys of an index in some partitions.
abbrev pub prefix_in : IndexDef → ℕ → Bytes
prefix_in def part_id =
    if is_tag def.index_type
    then tag_index_prefix part_id def.id
    else edge_index_prefix part_id def.id

abbrev pub is_entry : IndexDef → List ℕ → Bytes → Bool
is_entry def [] k = false
is_entry def (part_id ∷ part_ids) k =
    starts_with (prefix_in def part_id) k || is_entry def part_ids k

module _ (show : ℕ → Bytes) (json : Codec IndexDef) where
  get-delete_keys :
      (s : MemoryKvStore) (es : List Entry) (k : Bytes)
      → get (delete_keys show json s es) k ≡ (if named (map (λ e. e.0) es) k then none else get s k)
  unfolding delete_keys
  get-delete_keys s [] k = refl
  get-delete_keys s ((j, v) ∷ es) k =
      ground (arith, get-delete_keys (delete s j) es k, get-delete s j k)

  delete_keys-IsSorted :
      (s : MemoryKvStore) (es : List Entry)
      → IsSorted lex_ltb s.current
      → IsSorted lex_ltb (delete_keys show json s es).current
  unfolding delete_keys delete
  delete_keys-IsSorted s [] o = o
  delete_keys-IsSorted s ((j, v) ∷ es) o =
      delete_keys-IsSorted (delete s j) es (remove-IsSorted lex_ltb lex-IsOrder j s.current o)

  get-delete_all_index_entries :
      (s : MemoryKvStore) (def : IndexDef) (part_ids : List ℕ) (k : Bytes)
      → IsSorted lex_ltb s.current
      → get (delete_all_index_entries show json s def part_ids).0 k
        ≡ (if is_entry def part_ids k then none else get s k)
  unfolding delete_all_index_entries
  get-delete_all_index_entries s def [] k o = refl
  get-delete_all_index_entries s def (part_id ∷ part_ids) k o =
      let prefix = prefix_in def part_id in
      let cleared = delete_keys show json s (scan_prefix s prefix) in
      let rest =
        get-delete_all_index_entries cleared def part_ids k
          (delete_keys-IsSorted s (scan_prefix s prefix) o) in
      let one : get cleared k ≡ (if starts_with prefix k then none else get s k) =
        get-delete_keys s (scan_prefix s prefix) k
        ∙ rw (scan_prefix_lem s prefix o)
            (unfold get in ground (arith, named-keys prefix s.current k)) in
      ground (arith, rest, one)

  -- The manager after a drop.
  abbrev dropped : IndexManager → ℕ → Bytes → List ℕ → IndexDef → IndexManager
  dropped m space_id index_name part_ids def =
      unregister show json
        (delete_persisted_def show json
          (record m { kvstore = (delete_all_index_entries show json m.kvstore def part_ids).0 })
          space_id def.id)
        space_id index_name def.id

  drop-found :
      (m : IndexManager) (space_id : ℕ) (index_name : Bytes) (part_ids : List ℕ) (def : IndexDef)
      → (get_index show json m space_id index_name).1 ≡ some def
      → drop_index_with_data show json m space_id index_name part_ids ≡ (
        dropped (get_index show json m space_id index_name).0 space_id index_name part_ids def,
        ok tt,
      )
  unfolding drop_index_with_data
  drop-found m space_id index_name part_ids def found = ground (arith, found)

  get_index-kvstore :
      (m : IndexManager) (space_id : ℕ) (index_name : Bytes)
      → (get_index show json m space_id index_name).0.kvstore ≡ m.kvstore
  unfolding get_index ensure_loaded
  get_index-kvstore m space_id index_name = ground arith

  -- Dropping an index that is found, with its data in some partitions, in a store in key order,
  -- succeeds; afterwards the store has neither the definition of the index nor any key under the
  -- prefix of the index in those partitions, and every other key has the value that it had.
  pub drop_index_with_data_lem :
      (m : IndexManager) (space_id : ℕ) (index_name : Bytes) (part_ids : List ℕ) (def : IndexDef)
      → IsSorted lex_ltb m.kvstore.current
      → (get_index show json m space_id index_name).1 ≡ some def
      → ((drop_index_with_data show json m space_id index_name part_ids).1 ≡ ok tt)
        × ((k : Bytes)
            → get (drop_index_with_data show json m space_id index_name part_ids).0.kvstore k ≡ (
                if same lex_ltb (index_def_key show json space_id def.id) k
                  || is_entry def part_ids k
                then none
                else get m.kvstore k))
  unfolding delete_persisted_def unregister
  drop_index_with_data_lem m space_id index_name part_ids def o found =
      let here = drop-found m space_id index_name part_ids def found in
      let kept = get_index-kvstore m space_id index_name in
      (
        ap (λ (r : IndexManager × IndexResult (Unit {0})). r.1) here,
        λ k.
            let left = (delete_all_index_entries show json m.kvstore def part_ids).0 in
            ap (λ (r : IndexManager × IndexResult (Unit {0})). get r.0.kvstore k) here
            ∙ ap
                (λ s.
                  get
                    (delete (delete_all_index_entries show json s def part_ids).0
                      (index_def_key show json space_id def.id))
                    k)
                kept
            ∙ get-delete left (index_def_key show json space_id def.id) k
            ∙ ground (arith, get-delete_all_index_entries m.kvstore def part_ids k o),
      )
