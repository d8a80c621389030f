-- ===== src/Index/Pages/Lookup.antt =====
-- byoridb-storage/src/index.rs: the pages of a lookup, taken together.
use mathlib.Core.List.{append_assoc}
use byoridb.Base.{
  ℕ, ◌+◌, ◌<◌, ◌≤◌, ◌≡◌, inl, inr, refl, ap, ◌∙◌, Bool, true, false, not, ◌||◌, List, [], ◌∷◌, ◌++◌,
  some, All, length, ltb, ◌==◌, if◌then◌else◌, arith, Bool-cases, u64_mod,
}
use byoridb.Base.Ordered as Tree
use byoridb.Base.Ordered.{IsSorted}
use byoridb.Base.Lex.{lex_ltb, starts_with}
use byoridb.Base.Members.{Within-All, All-Within, Within-retain}
use byoridb.Raft.Types.{Bytes}
use byoridb.Keys.BigEndian.{write_u32}
use byoridb.Keys.Values.{IndexValue}
use byoridb.Keys.Layout.{
  encode_values, index_prefix, tag_index_prefix, edge_index_prefix, tag_index_prefix_with_values,
  edge_index_prefix_with_values,
}
use byoridb.Kv.{MemoryKvStore, Entry}
use byoridb.Kv.Scans.{with_prefix}
use byoridb.Raft.Storage.{Codec}
use byoridb.Index.{IndexDef, IndexResult, ok, ◌>>=◌, is_tag, invalid_request}
use byoridb.Index.Scans.{prefix_successor, has_layout}
use byoridb.Index.Scans.Successor.{AreBytes, prefix_successor_lem, successor-some}
use byoridb.Index.Pages.{LookupCursor, Page, validate_key, page_start, page_from, lookup_page_keys}
use byoridb.Index.Pages.After.{keys_of, from_to}
use byoridb.Index.Pages.Runs.{passed, effective}
use byoridb.Index.Pages.Complete.{PageRun, run_from}
use byoridb.Index.Pages.Ends.{run_ends}

-- Between a prefix and its successor are the keys with the prefix.
from_to-prefix :
    (prefix end : Bytes) (m : List Entry)
    → AreBytes prefix
    → All (λ (e : Entry). AreBytes e.0) m
    → prefix_successor prefix ≡ some end
    → from_to prefix end m ≡ with_prefix prefix m
unfolding Tree.range_from
from_to-prefix prefix end [] b a e = refl
from_to-prefix prefix end ((k, v) ∷ m) b (ak, a) e =
    ground (arith, from_to-prefix prefix end m b a e, prefix_successor_lem prefix end k b ak e)

module _ (part_id : ℕ) (def : IndexDef) (values : List IndexValue) (edge : Bool) where
  abbrev pub page_prefix : Bytes
  page_prefix =
      if edge
      then edge_index_prefix_with_values part_id def.id values
      else tag_index_prefix_with_values part_id def.id values

  abbrev pub header : Bytes
  header = if edge then edge_index_prefix part_id def.id else tag_index_prefix part_id def.id

  abbrev pub tail_of : ℕ
  tail_of = if edge then 24 else 8

  page_prefix-successor : (end : Bytes) × (prefix_successor page_prefix ≡ some end)
  unfolding edge_index_prefix_with_values tag_index_prefix_with_values edge_index_prefix
      tag_index_prefix index_prefix
  page_prefix-successor = elim (Bool-cases edge) [
    | inl y ↦
        rw (y, append_assoc (write_u32 part_id) (5 ∷ write_u32 def.id) (encode_values values))
          (successor-some (write_u32 part_id) 5 (write_u32 def.id ++ encode_values values)
            (omega arith))
    | inr n ↦
        rw (n, append_assoc (write_u32 part_id) (4 ∷ write_u32 def.id) (encode_values values))
          (successor-some (write_u32 part_id) 4 (write_u32 def.id ++ encode_values values)
            (omega arith))
  ]

  module _ (lossy : Bytes → Bytes) (json : Codec LookupCursor) (s : MemoryKvStore) (limit : ℕ) where
    abbrev pub page : Bytes → IndexResult Page
    page cursor = lookup_page_keys lossy json s part_id def values limit cursor edge

    abbrev refused : Bool
    refused =
        (part_id == 0)
        || (ltb (length def.fields) (length values)
            || (if edge then is_tag def.index_type else not (is_tag def.index_type)))

    page_body : Bytes → IndexResult Page
    page_body cursor =
        page_start lossy json def page_prefix (length header) tail_of cursor
        >>= page_from lossy json def page_prefix (length header) tail_of s limit

    page_reads : (cursor : Bytes) (p : Page) → page cursor ≡ ok p → page_body cursor ≡ ok p
    unfolding lookup_page_keys page_body
    page_reads cursor p h = (passed refused invalid_request {r = page_body cursor} h).1

    -- In a store in key order with keys of bytes, when the JSON of a cursor is not empty and the
    -- prefix of the lookup is made of bytes, a run through the pages of a lookup by their
    -- cursors, up to a page without more behind it, reads exactly the keys with the prefix, each
    -- once and in order, whatever the limit of a page.
    pub pages_lem :
        (keys : List Bytes)
        → IsSorted lex_ltb s.current
        → All (λ (e : Entry). AreBytes e.0) s.current
        → AreBytes page_prefix
        → ((c : LookupCursor) → json.serialize c ≡ some [] → ⊥)
        → PageRun page [] keys
        → keys ≡ keys_of (with_prefix page_prefix s.current)
    unfolding page_start page_body
    pages_lem keys o a b never_empty run =
        let (end, e) = page_prefix-successor in
        run_from lossy json def page_prefix (length header) tail_of never_empty s o limit end e page
          page_reads [] page_prefix keys run refl
        ∙ ap keys_of (from_to-prefix page_prefix end s.current b a e)

    layouts-AllValid :
        (m : List Entry)
        → All
            (λ (e : Entry). has_layout lossy def.fields (length header) tail_of e.0 ≡ true)
            (with_prefix page_prefix m)
        → All
            (λ (e : Entry).
              (u : Unit {0}) × (validate_key lossy json def page_prefix (length header) tail_of e.0
                ≡ ok u))
            (with_prefix page_prefix m)
    unfolding validate_key
    layouts-AllValid m a = Within-All _ (with_prefix page_prefix m) (λ e w.
        let (_, starts) = (Within-retain (λ (t : Entry). starts_with page_prefix t.0) m e).0 w in
        let layout =
          All-Within (λ (t : Entry). has_layout lossy def.fields (length header) tail_of t.0 ≡ true)
            (with_prefix page_prefix m) a e w in
        (tt, rw (starts, layout) refl))

    -- In a store in key order with keys of bytes, when the JSON of a cursor is not empty and the
    -- prefix is made of bytes, the partition is not 0, there are at most as many values as
    -- fields, the index is of the type looked up, the limit in force with one more fits in 64
    -- bits, and all keys with the prefix have the layout of the index, the run through the pages
    -- by their cursors comes to its end without an error.
    pub pages_end :
        IsSorted lex_ltb s.current
        → All (λ (e : Entry). AreBytes e.0) s.current
        → AreBytes page_prefix
        → ((c : LookupCursor) → json.serialize c ≡ some [] → ⊥)
        → 0 < part_id
        → length values ≤ length def.fields
        → is_tag def.index_type ≡ not edge
        → effective limit + 1 < u64_mod
        → All
            (λ (e : Entry). has_layout lossy def.fields (length header) tail_of e.0 ≡ true)
            (with_prefix page_prefix s.current)
        → (keys : List Bytes) × PageRun page [] keys
    unfolding lookup_page_keys page_body
    pages_end o a b never_empty hp hv ht small layouts =
        let (end, e) = page_prefix-successor in
        let accepted : refused ≡ false = ground (arith, hp, hv, ht) in
        run_ends lossy json def page_prefix (length header) tail_of s limit small end e o
          never_empty page (λ cursor. rw accepted refl)
          (rw (from_to-prefix page_prefix end s.current b a e) (layouts-AllValid s.current layouts))
