-- ===== src/Index/Scans.antt =====
-- byoridb-storage/src/index.rs: the entries of an index in the key-value store, and the scans, lookups and
-- counts over them. A method for tags and its twin for edges share a helper where the source repeats
-- the lines. `String::from_utf8_lossy`, which the decoding of a value calls, is a parameter (`lossy`).
pub mod Successor
pub mod Entries
pub mod Lookups
pub mod Bounds
pub mod Operators
pub mod Ranges
use byoridb.Base.{
  ℕ, suc, ◌+◌, ◌-◌, ◌*◌, ◌%◌, ◌^◌, Bool, true, false, not, ◌&&◌, ◌||◌, List, [], ◌∷◌, ◌++◌, Option,
  none, some, length, is_empty, take, drop, map, ltb, leb, ◌==◌, if◌then◌else◌,
}
use byoridb.Base.Ordered as Tree
use byoridb.Base.Lex.{lex_ltb}
use byoridb.Raft.Types.{Bytes}
use byoridb.Keys.BigEndian.{ℤ, i64_limit}
use byoridb.Keys.Values.{IndexValue, decode}
use byoridb.Keys.Values as Values
use byoridb.Keys.Layout.{
  tag_index_prefix, edge_index_prefix, tag_index_prefix_with_values, edge_index_prefix_with_values,
  tag_index_key, edge_index_key, parse_tag_index_vid, parse_edge_index_edge,
}
use byoridb.Kv as Kv
use byoridb.Kv.{MemoryKvStore, Entry}
use byoridb.Kv.Visits.{scan_prefix_limited}
use byoridb.Index.{
  IndexDef, IndexResult, ok, err, ◌>>=◌, storage, malformed_key, group_single_field,
  range_single_field, no_upper_bound, unordered_boundary,
}

pub record ScanOptions : Type 0 where
  pub limit : ℕ
  pub start_values : Option (List IndexValue)
  pub end_values : Option (List IndexValue)
  pub include_start : Bool
  pub include_end : Bool

pub data RangeOperator : Type 0 where
  greater_than greater_than_or_equal less_than less_than_or_equal : RangeOperator

-- The loop from the last byte to the first: the last byte below 255 is counted up, the rest is cut.
unfoldable pub prefix_successor : Bytes → Option Bytes
prefix_successor [] = none
prefix_successor (b ∷ bs) = elim (prefix_successor bs) [
  | some end ↦ some (b ∷ end)
  | none ↦ if b == 255 then none else some ((b + 1) ∷ [])
]

unfoldable pub insert_tag_index : MemoryKvStore → ℕ → ℕ → List IndexValue → ℤ → MemoryKvStore
insert_tag_index s part_id index_id prop_values vid =
    Kv.put s (tag_index_key part_id index_id prop_values vid) []

unfoldable pub delete_tag_index : MemoryKvStore → ℕ → ℕ → List IndexValue → ℤ → MemoryKvStore
delete_tag_index s part_id index_id prop_values vid =
    Kv.delete s (tag_index_key part_id index_id prop_values vid)

unfoldable pub insert_edge_index :
    MemoryKvStore → ℕ → ℕ → List IndexValue → ℤ → ℤ → ℤ → MemoryKvStore
insert_edge_index s part_id index_id prop_values src_vid rank dst_vid =
    Kv.put s (edge_index_key part_id index_id prop_values src_vid rank dst_vid) []

unfoldable pub delete_edge_index :
    MemoryKvStore → ℕ → ℕ → List IndexValue → ℤ → ℤ → ℤ → MemoryKvStore
delete_edge_index s part_id index_id prop_values src_vid rank dst_vid =
    Kv.delete s (edge_index_key part_id index_id prop_values src_vid rank dst_vid)

-- `(limit > 0).then_some(limit)`
abbrev pub limit_of : ℕ → Option ℕ
limit_of limit = if ltb 0 limit then some limit else none

abbrev pub or_end : Option Bytes → Bytes → Bytes
or_end none prefix_end = prefix_end
or_end (some end) prefix_end = end

-- The first key of a bounded scan, and the first key behind it, given the key of a boundary.
abbrev pub start_of : ScanOptions → (List IndexValue → Bytes) → Bytes → Bytes → Bytes
start_of options boundary_for prefix prefix_end = elim options.start_values [
  | none ↦ prefix
  | some values ↦
      if options.include_start
      then boundary_for values
      else or_end (prefix_successor (boundary_for values)) prefix_end
]

abbrev pub end_of : ScanOptions → (List IndexValue → Bytes) → Bytes → Bytes
end_of options boundary_for prefix_end = elim options.end_values [
  | none ↦ prefix_end
  | some values ↦
      if options.include_end
      then or_end (prefix_successor (boundary_for values)) prefix_end
      else boundary_for values
]

abbrev pub is_unbounded : ScanOptions → Bool
is_unbounded options = elim options.start_values [
  | some values ↦ false
  | none ↦ elim options.end_values [ some values ↦ false | none ↦ true ]
]

-- The choice of the entries in `scan_tag_index` and `scan_edge_index`.
unfoldable pub scan_entries :
    MemoryKvStore → (List IndexValue → Bytes) → Bytes → ScanOptions → IndexResult (List Entry)
unfolding prefix_successor
scan_entries s boundary_for prefix options =
    let limit = limit_of options.limit in
    if is_unbounded options
    then ok (scan_prefix_limited s prefix limit)
    else elim (prefix_successor prefix) [
      | none ↦ err no_upper_bound
      | some prefix_end ↦ ok (
          Kv.scan_range s (start_of options boundary_for prefix prefix_end)
            (end_of options boundary_for prefix_end) limit)
    ]

-- `Vec::truncate` to a limit above 0.
abbrev pub truncated {ℓ} : {A : Type ℓ} → ℕ → List A → List A
truncated limit xs = if ltb 0 limit && ltb limit (length xs) then take limit xs else xs

-- `collect` of results: the first error, or all values.
unfoldable pub collect {ℓ κ} :
    {A : Type ℓ} {B : Type κ} → (A → IndexResult B) → List A → IndexResult (List B)
collect f [] = ok []
collect f (x ∷ xs) = let rest = collect f xs in f x >>= λ y. rest >>= λ ys. ok (y ∷ ys)

module _ (lossy : Bytes → Bytes) where
  -- The loop that reads one value for each field, with what is left of the bytes.
  unfoldable pub skip_values : List Bytes → Bytes → Option Bytes
  skip_values [] values = some values
  skip_values (field ∷ fields) values = elim (decode lossy values) [
    | none ↦ none
    | some (value, consumed) ↦ skip_values fields (drop consumed values)
  ]

  -- The layout of an index key: a header, a value for each field, and ids of `tail` bytes.
  unfoldable pub has_layout : List Bytes → ℕ → ℕ → Bytes → Bool
  unfolding skip_values
  has_layout fields header_len tail key =
      if ltb (length key) (tail + header_len)
      then false
      else elim (skip_values fields (drop header_len (take (length key - tail) key))) [
        | none ↦ false
        | some left ↦ is_empty left
      ]

  unfoldable pub tag_entry : IndexDef → ℕ → Bytes → IndexResult ℤ
  unfolding has_layout
  tag_entry def part_id key =
      if has_layout def.fields (length (tag_index_prefix part_id def.id)) 8 key
      then (elim (parse_tag_index_vid key) [ none ↦ err malformed_key | some vid ↦ ok vid ])
      else err malformed_key

  unfoldable pub edge_entry : IndexDef → ℕ → Bytes → IndexResult (ℤ × ℤ × ℤ)
  unfolding has_layout
  edge_entry def part_id key =
      if has_layout def.fields (length (edge_index_prefix part_id def.id)) 24 key
      then (elim (parse_edge_index_edge key) [ none ↦ err malformed_key | some ids ↦ ok ids ])
      else err malformed_key

  module _ (s : MemoryKvStore) (part_id : ℕ) (def : IndexDef) where
    unfoldable pub scan_tag_index : List IndexValue → ScanOptions → IndexResult (List ℤ)
    unfolding scan_entries collect tag_entry
    scan_tag_index prefix_values options =
        scan_entries s
          (λ values. tag_index_prefix_with_values part_id def.id (prefix_values ++ values))
          (tag_index_prefix_with_values part_id def.id prefix_values) options
        >>= λ entries. collect (λ (e : Entry). tag_entry def part_id e.0) entries >>= λ results.
            ok (truncated options.limit results)

    unfoldable pub scan_edge_index : List IndexValue → ScanOptions → IndexResult (List (ℤ × ℤ × ℤ))
    unfolding scan_entries collect edge_entry
    scan_edge_index prefix_values options =
        scan_entries s
          (λ values. edge_index_prefix_with_values part_id def.id (prefix_values ++ values))
          (edge_index_prefix_with_values part_id def.id prefix_values) options
        >>= λ entries. collect (λ (e : Entry). edge_entry def part_id e.0) entries >>= λ results.
            ok (truncated options.limit results)

    abbrev pub exactly : ℕ → ScanOptions
    exactly limit = record {
      limit = limit;
      start_values = none;
      end_values = none;
      include_start = false;
      include_end = false;
    }

    unfoldable pub lookup_tag : List IndexValue → ℕ → IndexResult (List ℤ)
    unfolding scan_tag_index
    lookup_tag values limit = scan_tag_index values (exactly limit)

    unfoldable pub lookup_edge : List IndexValue → ℕ → IndexResult (List (ℤ × ℤ × ℤ))
    unfolding scan_edge_index
    lookup_edge values limit = scan_edge_index values (exactly limit)

    -- The least and the greatest value of the type of a boundary; none is the refusal of a boundary.
    -- A float is its bits, an infinity 0x7ff0000000000000, with the top bit where it is negative.
    unfoldable pub type_bounds : IndexValue → Option (IndexValue × IndexValue)
    type_bounds IndexValue.null = none
    type_bounds (IndexValue.string s) = none
    type_bounds (IndexValue.bool b) = some (IndexValue.bool false, IndexValue.bool true)
    type_bounds (IndexValue.int i) =
        some (IndexValue.int (ℤ.negsuc (i64_limit - 1)), IndexValue.int (ℤ.pos (i64_limit - 1)))
    type_bounds (IndexValue.float bits) =
        let magnitude = bits % 2 ^ 63 in
        if ltb 0x7ff0000000000000 magnitude || magnitude == 0
        then none
        else some (IndexValue.float 0xfff0000000000000, IndexValue.float 0x7ff0000000000000)

    abbrev pub range_options :
        ℕ → RangeOperator → IndexValue → IndexValue → IndexValue → ScanOptions
    range_options limit greater_than value least greatest = record {
      limit = limit;
      start_values = some (value ∷ []);
      end_values = some (greatest ∷ []);
      include_start = false;
      include_end = true;
    }
    range_options limit greater_than_or_equal value least greatest = record {
      limit = limit;
      start_values = some (value ∷ []);
      end_values = some (greatest ∷ []);
      include_start = true;
      include_end = true;
    }
    range_options limit less_than value least greatest = record {
      limit = limit;
      start_values = some (least ∷ []);
      end_values = some (value ∷ []);
      include_start = true;
      include_end = false;
    }
    range_options limit less_than_or_equal value least greatest = record {
      limit = limit;
      start_values = some (least ∷ []);
      end_values = some (value ∷ []);
      include_start = true;
      include_end = true;
    }

    unfoldable pub lookup_tag_range : IndexValue → RangeOperator → ℕ → IndexResult (List ℤ)
    unfolding scan_tag_index type_bounds
    lookup_tag_range value operator limit =
        if not (length def.fields == 1) then err range_single_field else elim (type_bounds value) [
          | none ↦ err unordered_boundary
          | some (least, greatest) ↦
              scan_tag_index [] (range_options limit operator value least greatest)
        ]

    unfoldable pub lookup_edge_range :
        IndexValue → RangeOperator → ℕ → IndexResult (List (ℤ × ℤ × ℤ))
    unfolding scan_edge_index type_bounds
    lookup_edge_range value operator limit =
        if not (length def.fields == 1) then err range_single_field else elim (type_bounds value) [
          | none ↦ err unordered_boundary
          | some (least, greatest) ↦
              scan_edge_index [] (range_options limit operator value least greatest)
        ]

    abbrev pub Counts : Type 0
    Counts = List (Bytes × (IndexValue × ℕ))

    -- `counts.entry(values).or_insert((value, 0)).1 += 1`
    unfoldable pub count_value : Counts → Bytes → IndexValue → Counts
    count_value counts values value = elim (Tree.lookup lex_ltb values counts) [
      | none ↦ Tree.insert lex_ltb values (value, 1) counts
      | some (first, count) ↦ Tree.insert lex_ltb values (first, count + 1) counts
    ]

    -- A scanned key starts with the prefix, whose length is `header_len`.
    unfoldable pub group_counts : ℕ → Counts → List Entry → IndexResult Counts
    unfolding count_value
    group_counts header_len counts [] = ok counts
    group_counts header_len counts ((key, v) ∷ entries) =
        let values = drop header_len (take (length key - 8) key) in
        if ltb (length key) (8 + header_len)
        then err malformed_key
        else elim (decode lossy values) [
          | none ↦ err malformed_key
          | some (value, consumed) ↦ elim (consumed == length values) [
            | true ↦ group_counts header_len (count_value counts values value) entries
            | false ↦ err malformed_key
          ]
        ]

    unfoldable pub tag_index_group_counts : IndexResult (List (IndexValue × ℕ))
    unfolding group_counts
    tag_index_group_counts =
        let prefix = tag_index_prefix part_id def.id in
        if not (length def.fields == 1)
        then err group_single_field
        else group_counts (length prefix) [] (Kv.scan_prefix s prefix) >>= λ counts.
            ok (map (λ e. e.1) counts)
