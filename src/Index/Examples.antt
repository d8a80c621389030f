-- ===== src/Index/Examples.antt =====
-- The theorems on byoridb-storage/src/index.rs at a small index.
use byoridb.Base.{
  if◌then◌else◌, ◌||◌, ℕ, ◌≡◌, ◌↔◌, refl, true, false, List, [], ◌∷◌, none, some, All, arith,
}
use byoridb.Base.Ordered as Tree
use byoridb.Base.Ordered.{IsSorted, same}
use byoridb.Base.Lex.{lex_ltb, starts_with}
use byoridb.Base.Members.{Within}
use byoridb.Raft.Types.{Bytes}
use byoridb.Keys.BigEndian.{ℤ, pos, negsuc, IsI64, be_bytes, as_u64, read_be}
use byoridb.Keys.Values.{IndexValue, int, encode, decode, flip_sign}
use byoridb.Keys.Layout.{
  encode_values, index_prefix, tag_index_prefix, tag_index_prefix_with_values, tag_index_key,
}
use byoridb.Kv.{MemoryKvStore, Entry, put, get}
use byoridb.Kv.Scans.{with_prefix}
use byoridb.Index.{
  IndexDef, IndexManager, IndexResult, ok, tag, index_def_key, ensure_loaded, get_index,
  drop_index_with_data,
}
use byoridb.Index.Drops.{is_entry, drop_index_with_data_lem}
use byoridb.Index.Scans.{
  insert_tag_index, lookup_tag, lookup_tag_range, greater_than, has_layout, skip_values,
}
use byoridb.Index.Scans.Successor.{AreBytes}
use byoridb.Index.Scans.Lookups.{plain, IsTagIndex, lookup_tag_lem, insert_tag_index-IsTagIndex}
use byoridb.Index.Scans.Operators.{accepts}
use byoridb.Index.Scans.Ranges.{lookup_tag_range_lem}
use byoridb.Index.Plain.{cursors, defs}
use byoridb.Index.Pages.{Page}
use byoridb.Index.Pages.After.{keys_of}
use byoridb.Index.Pages.Complete.{PageRun}
use byoridb.Index.Pages.Lookup.{page, page_prefix, pages_lem, pages_end}

-- The index "i" on the field "a" of the tag "t".
abbrev index_def : IndexDef
index_def = record {
  id = 1;
  space_id = 1;
  index_name = 105 ∷ [];
  index_type = tag;
  schema_id = 1;
  schema_name = 116 ∷ [];
  fields = (97 ∷ []) ∷ [];
  field_indices = 0 ∷ [];
}

abbrev empty : MemoryKvStore
empty = record { history = []; current = [] }

empty-IsTagIndex : IsTagIndex 1 index_def empty
empty-IsTagIndex = record { sorted = unfold IsSorted in tt; entries = λ e w k. absurd w }

abbrev five : List IndexValue
five = int (pos 5) ∷ []

-- Vertex 7 with the value 5, and vertex 9 with -2.
abbrev one_entry : MemoryKvStore
one_entry = insert_tag_index empty 1 1 five (pos 7)

abbrev stored : MemoryKvStore
stored = insert_tag_index one_entry 1 1 (int (negsuc 1) ∷ []) (pos 9)

one_entry-IsTagIndex : IsTagIndex 1 index_def one_entry
one_entry-IsTagIndex =
    insert_tag_index-IsTagIndex 1 index_def empty five (pos 7) empty-IsTagIndex refl
      (omega arith, tt) (omega arith)

insert_tag_index_example : IsTagIndex 1 index_def stored
insert_tag_index_example =
    insert_tag_index-IsTagIndex 1 index_def one_entry (int (negsuc 1) ∷ []) (pos 9)
      one_entry-IsTagIndex refl (omega arith, tt) (omega arith)

stored-IsTagIndex : IsTagIndex 1 index_def stored
stored-IsTagIndex =
    insert_tag_index-IsTagIndex 1 index_def one_entry (int (negsuc 1) ∷ []) (pos 9)
      one_entry-IsTagIndex refl (omega arith, tt) (omega arith)

lookup_tag_example :
    (vids : List ℤ) × (lookup_tag plain stored 1 index_def five 0 ≡ ok vids)
    × (Within (pos 7) vids ↔ ((b : Bytes) × (get stored (tag_index_key 1 1 five (pos 7)) ≡ some b)))
lookup_tag_example =
    lookup_tag_lem 1 index_def stored five (omega arith) (omega arith) stored-IsTagIndex
      (omega arith, tt) refl (pos 7) (omega arith)

stored-AreBytes : All (λ (e : Entry). AreBytes e.0) stored.current
unfolding insert_tag_index put Tree.insert lex_ltb tag_index_key tag_index_prefix index_prefix
    encode_values encode flip_sign as_u64 be_bytes
stored-AreBytes = ground arith

lookup_tag_range_example :
    (vids : List ℤ) × (lookup_tag_range plain stored 1 index_def (int (pos 3)) greater_than 0
      ≡ ok vids)
    × (Within (pos 7) vids ↔ (
        (y : ℤ) × IsI64 y
        × (accepts greater_than (pos 3) y ≡ true)
        × ((b : Bytes) × (get stored (tag_index_key 1 1 (int y ∷ []) (pos 7)) ≡ some b))))
lookup_tag_range_example =
    lookup_tag_range_lem 1 index_def stored (pos 3) greater_than stored-IsTagIndex stored-AreBytes
      refl (omega arith) (pos 7) (omega arith)

abbrev pages : Bytes → IndexResult Page
pages = page 1 index_def [] false plain cursors stored 1

prefix-AreBytes : AreBytes (page_prefix 1 index_def [] false)
unfolding tag_index_prefix_with_values tag_index_prefix index_prefix encode_values be_bytes
prefix-AreBytes = ground arith

stored-layouts :
    All
      (λ (e : Entry). has_layout plain index_def.fields 9 8 e.0 ≡ true)
      (with_prefix (page_prefix 1 index_def [] false) stored.current)
unfolding insert_tag_index put Tree.insert lex_ltb tag_index_key tag_index_prefix_with_values
    tag_index_prefix index_prefix encode_values encode flip_sign as_u64 be_bytes starts_with
    has_layout skip_values decode read_be
stored-layouts = (refl, (refl, tt))

run : (keys : List Bytes) × PageRun pages [] keys
unfolding tag_index_prefix index_prefix be_bytes
run =
    pages_end 1 index_def [] false plain cursors stored 1 stored-IsTagIndex.sorted stored-AreBytes
      prefix-AreBytes (λ c e. cc) (omega arith) (omega arith) refl (omega arith) stored-layouts

-- A page holds one of the two keys.
pages_end_example : (keys : List Bytes) × PageRun pages [] keys
unfolding tag_index_prefix index_prefix be_bytes
pages_end_example =
    pages_end 1 index_def [] false plain cursors stored 1 stored-IsTagIndex.sorted stored-AreBytes
      prefix-AreBytes (λ c e. cc) (omega arith) (omega arith) refl (omega arith) stored-layouts

pages_example : run.0 ≡ keys_of (with_prefix (page_prefix 1 index_def [] false) stored.current)
pages_example =
    pages_lem 1 index_def [] false plain cursors stored 1 run.0 stored-IsTagIndex.sorted
      stored-AreBytes prefix-AreBytes (λ c e. cc) run.1

abbrev one_digit : ℕ → Bytes
one_digit n = n ∷ []

abbrev manager : IndexManager
manager = record {
  kvstore = stored;
  indexes = ((1, 1), index_def) ∷ [];
  index_names = ((1, index_def.index_name), 1) ∷ [];
  next_index_id = 2;
  loaded = true;
}

manager_index : (get_index one_digit defs manager 1 index_def.index_name).1 ≡ some index_def
unfolding get_index ensure_loaded Tree.lookup lex_ltb
manager_index = refl

drop_index_example :
    ((drop_index_with_data one_digit defs manager 1 index_def.index_name (1 ∷ [])).1 ≡ ok tt)
    × ((k : Bytes)
        → get
            (drop_index_with_data one_digit defs manager 1 index_def.index_name (1 ∷ [])).0.kvstore
            k
          ≡ (if same lex_ltb (index_def_key one_digit defs 1 1) k || is_entry index_def (1 ∷ []) k
              then none
              else get stored k))
drop_index_example =
    drop_index_with_data_lem one_digit defs manager 1 index_def.index_name (1 ∷ []) index_def
      stored-IsTagIndex.sorted manager_index
