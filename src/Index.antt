-- ===== src/Index.antt =====
-- byoridb-storage/src/index.rs: the definitions of indexes, and how `IndexManager` keeps them in memory and in
-- the key-value store, here the in-memory one. serde_json of a definition is a parameter (`Codec`), and so
-- is printing a number in decimals (`show`). The `HashMap`s are kept in the order of their keys; what
-- the source returns in a map's order has no order of its own. A lock is held for one block.
pub mod Scans
pub mod Pages
pub mod Drops
mod Plain
mod Examples
use byoridb.Base.{
  ℕ, ◌+◌, ◌%◌, ◌^◌, Bool, true, false, not, ◌&&◌, List, [], ◌∷◌, ◌++◌, Option, none, some, length,
  map, retain, ltb, leb, ◌==◌, if◌then◌else◌,
}
use byoridb.Base.Ordered as Tree
use byoridb.Base.Lex.{lex_ltb}
use byoridb.Base.Pairs.{pair_ltb}
use byoridb.Raft.Types.{Bytes}
use byoridb.Keys.BigEndian.{ℤ}
use byoridb.Keys.Values.{IndexValue}
use byoridb.Keys.Layout.{tag_index_prefix, edge_index_prefix}
use byoridb.Kv as Kv
use byoridb.Kv.{MemoryKvStore, Entry}
use byoridb.Raft.Storage.{Codec}

pub data IndexType : Type 0 where
  tag edge : IndexType

pub record IndexDef : Type 0 where
  pub id : ℕ
  pub space_id : ℕ
  pub index_name : Bytes
  pub index_type : IndexType
  pub schema_id : ℕ
  pub schema_name : Bytes
  pub fields : List Bytes
  pub field_indices : List ℕ

-- The texts of the errors are constructors; the last one is the panic of `unwrap`.
pub data IndexError : Type 0 where
  index_already_exists index_not_found field_not_found : Bytes → IndexError
  storage malformed_key group_single_field range_single_field : IndexError
  no_upper_bound unordered_boundary invalid_request malformed_page_key : IndexError
  invalid_cursor cursor_mismatch page_limit_overflow invalid_vid panic : IndexError

pub data IndexResult {ℓ} (A : Type ℓ) : Type ℓ where
  ok : A → IndexResult A
  err : IndexError → IndexResult A

infixl 5 ◌>>=◌
abbrev pub ◌>>=◌ {ℓ κ} :
    {A : Type ℓ} {B : Type κ} → IndexResult A → (A → IndexResult B) → IndexResult B
ok a >>= f = f a
err e >>= f = err e

-- `Option::ok_or_else`
abbrev pub ok_or {ℓ} : {A : Type ℓ} → IndexError → Option A → IndexResult A
ok_or e none = err e
ok_or e (some a) = ok a

pub record IndexManager : Type 0 where
  pub kvstore : MemoryKvStore
  pub indexes : List ((ℕ × ℕ) × IndexDef)
  pub index_names : List ((ℕ × Bytes) × ℕ)
  pub next_index_id : ℕ
  pub loaded : Bool

abbrev pub id_ltb : ℕ × ℕ → ℕ × ℕ → Bool
id_ltb = pair_ltb ltb ltb

abbrev pub name_ltb : ℕ × Bytes → ℕ × Bytes → Bool
name_ltb = pair_ltb ltb lex_ltb

abbrev pub new : MemoryKvStore → IndexManager
new kvstore = record {
  kvstore = kvstore;
  indexes = [];
  index_names = [];
  next_index_id = 1;
  loaded = false;
}

-- "__meta:index_def:"
abbrev pub index_def_prefix : Bytes
index_def_prefix =
    95 ∷ 95 ∷ 109 ∷ 101 ∷ 116 ∷ 97 ∷ 58 ∷ 105 ∷ 110 ∷ 100 ∷ 101 ∷ 120 ∷ 95 ∷ 100 ∷ 101 ∷ 102 ∷ 58
    ∷ []

abbrev pub max : ℕ → ℕ → ℕ
max a b = if ltb a b then b else a

-- What the loop of `ensure_loaded` has rebuilt; `count` counts the definitions read.
pub record Loading : Type 0 where
  pub indexes : List ((ℕ × ℕ) × IndexDef)
  pub index_names : List ((ℕ × Bytes) × ℕ)
  pub max_id : ℕ
  pub count : ℕ

unfoldable pub load_def : Loading → IndexDef → Loading
load_def l def = record {
  indexes = Tree.insert id_ltb (def.space_id, def.id) def l.indexes;
  index_names = Tree.insert name_ltb (def.space_id, def.index_name) def.id l.index_names;
  max_id = max l.max_id def.id;
  count = l.count + 1;
}

abbrev pub is_tag : IndexType → Bool
is_tag tag = true
is_tag edge = false

module _ (show : ℕ → Bytes) (json : Codec IndexDef) where
  unfoldable pub index_def_key : ℕ → ℕ → Bytes
  index_def_key space_id index_id = index_def_prefix ++ (show space_id ++ (58 ∷ show index_id))

  unfoldable pub load_defs : Loading → List Entry → Loading
  unfolding load_def
  load_defs l [] = l
  load_defs l ((key, value) ∷ entries) =
      load_defs (elim (json.deserialize value) [ none ↦ l | some def ↦ load_def l def ]) entries

  unfoldable pub ensure_loaded : IndexManager → IndexManager
  unfolding load_defs
  ensure_loaded m =
      let l =
        load_defs
          (record { indexes = m.indexes; index_names = m.index_names; max_id = 0; count = 0 })
          (Kv.scan_prefix m.kvstore index_def_prefix) in
      if m.loaded then m else record m {
        indexes = l.indexes;
        index_names = l.index_names;
        next_index_id =
            if ltb 0 l.count
            then max m.next_index_id ((l.max_id + 1) % 2 ^ 32)
            else m.next_index_id;
        loaded = true;
      }

  unfoldable pub persist_def : IndexManager → IndexDef → IndexResult IndexManager
  unfolding index_def_key
  persist_def m def = elim (json.serialize def) [
    | none ↦ err storage
    | some value ↦
        ok (record m { kvstore = Kv.put m.kvstore (index_def_key def.space_id def.id) value })
  ]

  unfoldable pub delete_persisted_def : IndexManager → ℕ → ℕ → IndexManager
  unfolding index_def_key
  delete_persisted_def m space_id index_id = record m {
    kvstore = Kv.delete m.kvstore (index_def_key space_id index_id);
  }

  -- The insertions into the two maps.
  unfoldable pub register : IndexManager → IndexDef → IndexManager
  register m def = record m {
    indexes = Tree.insert id_ltb (def.space_id, def.id) def m.indexes;
    index_names = Tree.insert name_ltb (def.space_id, def.index_name) def.id m.index_names;
  }

  -- `create_tag_index` and `create_edge_index`, which differ in the type of the definition. A failure
  -- leaves the id counted up, so the manager is returned with the result.
  unfoldable pub create_index :
      IndexType
      → IndexManager
      → ℕ
      → Bytes
      → ℕ
      → Bytes
      → List Bytes
      → List ℕ
      → IndexManager × IndexResult ℕ
  unfolding ensure_loaded persist_def register
  create_index index_type m space_id index_name schema_id schema_name fields field_indices =
      let m = ensure_loaded m in
      let id = m.next_index_id in
      let counted : IndexManager = record m { next_index_id = (id + 1) % 2 ^ 32 } in
      let def : IndexDef = record {
        id = id;
        space_id = space_id;
        index_name = index_name;
        index_type = index_type;
        schema_id = schema_id;
        schema_name = schema_name;
        fields = fields;
        field_indices = field_indices;
      } in
      elim (Tree.lookup name_ltb (space_id, index_name) m.index_names) [
        | some taken ↦ (m, err (index_already_exists index_name))
        | none ↦ elim (persist_def counted def) [
          | err e ↦ (counted, err e)
          | ok stored ↦ (register stored def, ok id)
        ]
      ]

  unfoldable pub get_index : IndexManager → ℕ → Bytes → IndexManager × Option IndexDef
  unfolding ensure_loaded
  get_index m space_id index_name =
      let m = ensure_loaded m in
      (
        m,
        elim (Tree.lookup name_ltb (space_id, index_name) m.index_names) [
          | none ↦ none
          | some index_id ↦ Tree.lookup id_ltb (space_id, index_id) m.indexes
        ],
      )

  unfoldable pub get_index_by_id : IndexManager → ℕ → ℕ → IndexManager × Option IndexDef
  unfolding ensure_loaded
  get_index_by_id m space_id index_id =
      let m = ensure_loaded m in (m, Tree.lookup id_ltb (space_id, index_id) m.indexes)

  -- The removals from the two maps.
  unfoldable pub unregister : IndexManager → ℕ → Bytes → ℕ → IndexManager
  unregister m space_id index_name index_id = record m {
    index_names = Tree.remove name_ltb (space_id, index_name) m.index_names;
    indexes = Tree.remove id_ltb (space_id, index_id) m.indexes;
  }

  unfoldable pub drop_index : IndexManager → ℕ → Bytes → IndexManager × IndexResult (Unit {0})
  unfolding get_index delete_persisted_def unregister
  drop_index m space_id index_name =
      let (m, found) = get_index m space_id index_name in
      elim found [
        | none ↦ (m, err (index_not_found index_name))
        | some def ↦
            (unregister (delete_persisted_def m space_id def.id) space_id index_name def.id, ok tt)
      ]

  -- The deletions in one partition, and in all of them, with the number of entries deleted.
  unfoldable pub delete_keys : MemoryKvStore → List Entry → MemoryKvStore
  delete_keys s [] = s
  delete_keys s ((key, value) ∷ entries) = delete_keys (Kv.delete s key) entries

  unfoldable pub delete_all_index_entries : MemoryKvStore → IndexDef → List ℕ → MemoryKvStore × ℕ
  unfolding delete_keys
  delete_all_index_entries s def [] = (s, 0)
  delete_all_index_entries s def (part_id ∷ partition_ids) =
      let prefix =
        if is_tag def.index_type
        then tag_index_prefix part_id def.id
        else edge_index_prefix part_id def.id in
      let entries = Kv.scan_prefix s prefix in
      let rest = delete_all_index_entries (delete_keys s entries) def partition_ids in
      (rest.0, length entries + rest.1)

  unfoldable pub drop_index_with_data :
      IndexManager → ℕ → Bytes → List ℕ → IndexManager × IndexResult (Unit {0})
  unfolding get_index delete_all_index_entries delete_persisted_def unregister
  drop_index_with_data m space_id index_name partition_ids =
      let (m, found) = get_index m space_id index_name in
      elim found [
        | none ↦ (m, err (index_not_found index_name))
        | some def ↦
            let (s, deleted) = delete_all_index_entries m.kvstore def partition_ids in
            let cleared : IndexManager = record m { kvstore = s } in
            (
              unregister (delete_persisted_def cleared space_id def.id) space_id index_name def.id,
              ok tt,
            )
      ]

  -- `list_indexes`, `list_tag_indexes` and `list_edge_indexes` by the test on the type.
  unfoldable pub list_where : (IndexType → Bool) → IndexManager → ℕ → List IndexDef
  unfolding ensure_loaded
  list_where test m space_id =
      retain (λ def. def.space_id == space_id && test def.index_type)
        (map (λ e. e.1) (ensure_loaded m).indexes)

  -- `get_indexes_for_tag` and `get_indexes_for_edge`, which do not load the definitions.
  unfoldable pub get_indexes_for : (IndexType → Bool) → IndexManager → ℕ → ℕ → List IndexDef
  get_indexes_for test m space_id schema_id =
      retain
        (λ def. def.space_id == space_id && (test def.index_type && def.schema_id == schema_id))
        (map (λ e. e.1) m.indexes)
