-- ===== src/Index/Pages.antt =====
-- byoridb-storage/src/index.rs: the pages of an equality lookup and the cursor between them. serde_json of a
-- cursor is a parameter (`Codec`). `unwrap` on no last key is the panic, as an error.
pub mod After
pub mod Runs
pub mod Complete
pub mod Ends
pub mod Lookup
use byoridb.Base.{
  ℕ, ◌+◌, Bool, true, false, not, ◌&&◌, ◌||◌, List, [], ◌∷◌, ◌++◌, Option, none, some, length,
  is_empty, last?, take, map, ltb, leb, ◌==◌, if◌then◌else◌, u64_mod,
}
use byoridb.Base.Ordered.{same}
use byoridb.Base.Lex.{lex_ltb, starts_with}
use byoridb.Raft.Types.{Bytes}
use byoridb.Keys.BigEndian.{ℤ}
use byoridb.Keys.Values.{IndexValue}
use byoridb.Keys.Layout.{
  tag_index_prefix, edge_index_prefix, tag_index_prefix_with_values, edge_index_prefix_with_values,
  parse_tag_index_vid, parse_edge_index_edge,
}
use byoridb.Kv as Kv
use byoridb.Kv.{MemoryKvStore, Entry}
use byoridb.Raft.Storage.{Codec}
use byoridb.Index.{
  IndexDef, IndexResult, ok, err, ◌>>=◌, ok_or, is_tag, storage, invalid_request, no_upper_bound,
  malformed_page_key, invalid_cursor, cursor_mismatch, page_limit_overflow, invalid_vid, panic,
}
use byoridb.Index.Scans.{prefix_successor, has_layout, collect}

pub record LookupCursor : Type 0 where
  pub version : ℕ
  pub space_id : ℕ
  pub index_name : Bytes
  pub schema_name : Bytes
  pub fields : List Bytes
  pub prefix : Bytes
  pub last_key : Bytes

abbrev pub same_fields : List Bytes → List Bytes → Bool
same_fields [] [] = true
same_fields [] (y ∷ ys) = false
same_fields (x ∷ xs) [] = false
same_fields (x ∷ xs) (y ∷ ys) = let rest = same_fields xs ys in same lex_ltb x y && rest

abbrev pub matches : LookupCursor → IndexDef → Bytes → Bool
matches c def prefix =
    (c.version == 1)
    && ((c.space_id == def.space_id)
        && (same lex_ltb c.index_name def.index_name
            && (same lex_ltb c.schema_name def.schema_name
                && (same_fields c.fields def.fields && same lex_ltb c.prefix prefix))))

-- The keys of a page, the cursor to the next one, and whether there is more.
abbrev pub Page : Type 0
Page = List Bytes × (Bytes × Bool)

abbrev pub cursor_to : IndexDef → Bytes → Bytes → LookupCursor
cursor_to def prefix last_key = record {
  version = 1;
  space_id = def.space_id;
  index_name = def.index_name;
  schema_name = def.schema_name;
  fields = def.fields;
  prefix = prefix;
  last_key = last_key;
}

module _ (lossy : Bytes → Bytes) (json : Codec LookupCursor) where
  module _ (def : IndexDef) (prefix : Bytes) (header_len tail : ℕ) where
    unfoldable pub validate_key : Bytes → IndexResult (Unit {0})
    validate_key key =
        if starts_with prefix key && has_layout lossy def.fields header_len tail key
        then ok tt
        else err malformed_page_key

    -- The first key of a page.
    unfoldable pub page_start : Bytes → IndexResult Bytes
    unfolding validate_key
    page_start cursor =
        if is_empty cursor
        then ok prefix
        else (ok_or invalid_cursor (json.deserialize cursor) >>= λ parsed.
            if not (matches parsed def prefix)
            then err cursor_mismatch
            else (validate_key parsed.last_key >>= λ v. ok (parsed.last_key ++ 0 ∷ [])))

    unfoldable pub next_cursor : Bool → List Bytes → IndexResult Bytes
    next_cursor false keys = ok []
    next_cursor true keys = ok_or panic (last? keys) >>= λ last_key.
        ok_or storage (json.serialize (cursor_to def prefix last_key))

    -- The scan of one page, from its start.
    unfoldable pub page_from : MemoryKvStore → ℕ → Bytes → IndexResult Page
    unfolding validate_key next_cursor prefix_successor collect
    page_from s limit start = ok_or no_upper_bound (prefix_successor prefix) >>= λ end.
        (let limit : ℕ = if limit == 0 then 1024 else limit in
          if leb u64_mod (limit + 1)
          then err page_limit_overflow
          else (let entries = Kv.scan_range s start end (some (limit + 1)) in
              collect (λ (e : Entry). validate_key e.0) entries >>= λ checked.
              (let keys = take limit (map (λ e. e.0) entries) in
                let has_more = ltb limit (length entries) in
                next_cursor has_more keys >>= λ cursor. ok (keys, (cursor, has_more)))))

  module _ (s : MemoryKvStore) (part_id : ℕ) (def : IndexDef) (values : List IndexValue) where
    unfoldable pub lookup_page_keys : ℕ → Bytes → Bool → IndexResult Page
    unfolding page_start page_from
    lookup_page_keys limit cursor edge =
        let prefix =
          if edge
          then edge_index_prefix_with_values part_id def.id values
          else tag_index_prefix_with_values part_id def.id values in
        let header_len =
          length
            (if edge then edge_index_prefix part_id def.id else tag_index_prefix part_id def.id) in
        let tail : ℕ = if edge then 24 else 8 in
        if (part_id == 0)
          || (ltb (length def.fields) (length values)
              || (if edge then is_tag def.index_type else not (is_tag def.index_type)))
        then err invalid_request
        else (page_start def prefix header_len tail cursor
            >>= page_from def prefix header_len tail s limit)

    unfoldable pub lookup_tag_page : ℕ → Bytes → IndexResult (List ℤ × (Bytes × Bool))
    unfolding lookup_page_keys collect
    lookup_tag_page limit cursor = lookup_page_keys limit cursor false >>= λ page.
        collect (λ (key : Bytes). ok_or invalid_vid (parse_tag_index_vid key)) page.0 >>= λ vids.
        ok (vids, page.1)

    unfoldable pub lookup_edge_page : ℕ → Bytes → IndexResult (List (ℤ × ℤ × ℤ) × (Bytes × Bool))
    unfolding lookup_page_keys collect
    lookup_edge_page limit cursor = lookup_page_keys limit cursor true >>= λ page.
        collect (λ (key : Bytes). ok_or invalid_vid (parse_edge_index_edge key)) page.0 >>= λ edges.
        ok (edges, page.1)
