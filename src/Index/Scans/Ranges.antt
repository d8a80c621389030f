-- ===== src/Index/Scans/Ranges.antt =====
-- byoridb-storage/src/index.rs: a range lookup in a tag index finds exactly the vertices with an integer in
-- the range.
use mathlib.Core.List.{append_assoc}
use byoridb.Base.{
  ℕ, ◌≡◌, ◌↔◌, refl, sym, ap, subst, ◌∙◌, true, false, not, ◌&&◌, List, [], ◌∷◌, ◌++◌, none, some,
  some_inj, All, length, arith,
}
use byoridb.Base.Ordered as Tree
use byoridb.Base.Ordered.{IsSorted}
use byoridb.Base.Lex.{lex_ltb}
use byoridb.Base.Members.{Within, Within-retain, All-Within}
use byoridb.Raft.Types.{Bytes}
use byoridb.Keys.BigEndian.{ℤ, IsI64, write_u32}
use byoridb.Keys.Values.{IndexValue, int}
use byoridb.Keys.Values.RoundTrip.{Fits}
use byoridb.Keys.Layout.{
  encode_values, index_prefix, tag_index_prefix, tag_index_prefix_with_values, tag_index_key,
  parse_tag_index_vid,
}
use byoridb.Keys.Layout.Reads.{parse_tag_index_vid-tag_index_key}
use byoridb.Kv as Kv
use byoridb.Kv.{MemoryKvStore, Entry, get, lt_i64}
use byoridb.Index.{IndexDef, ok, ◌>>=◌}
use byoridb.Index.Scans.{
  RangeOperator, greater_than, greater_than_or_equal, less_than, less_than_or_equal,
  prefix_successor, collect, tag_entry, scan_entries, scan_tag_index, type_bounds, lookup_tag_range,
}
use byoridb.Index.Scans.Successor.{AreBytes, successor-some}
use byoridb.Index.Scans.Entries.{collect_lem, find-Within, TagEntry, tag_entry_lem}
use byoridb.Index.Scans.Lookups.{IsTagIndex, plain}
use byoridb.Index.Scans.Bounds.{limit_at, limits-prefix, entry-limit_at}
use byoridb.Index.Pages.After.{from_to}
use byoridb.Index.Pages.Runs.{nothing_between, ok_inj}
use byoridb.Index.Scans.Operators.{
  accepts, low, high, from_it, to_it, inside, low-IsI64, high-IsI64, inside-int, inside-is-int,
}

from_to-Within :
    (start end : Bytes) (m : List Entry) (e : Entry)
    → Within e (from_to start end m)
      ↔ (Within e m × (lex_ltb e.0 start ≡ false) × (lex_ltb e.0 end ≡ true))
unfolding Tree.range_from
from_to-Within start end m e = (
  λ w.
      let (u, under) = (Within-retain (λ (t : Entry). lex_ltb t.0 end) _ e).0 w in
      let (v, above) = (Within-retain (λ (t : Entry). not (lex_ltb t.0 start)) m e).0 u in
      (v, ground (arith, above), under),
  λ (v, above, under). (Within-retain (λ (t : Entry). lex_ltb t.0 end) _ e).1 (
    (Within-retain (λ (t : Entry). not (lex_ltb t.0 start)) m e).1 (v, ground (arith, above)),
    under,
  ),
)

scan_range_all :
    (s : MemoryKvStore) (start end : Bytes)
    → Kv.scan_range s start end none ≡ from_to start end s.current
unfolding Kv.scan_range
scan_range_all s start end = ground (arith, nothing_between start end s.current)

single : (vs : List IndexValue) → length vs ≡ 1 → (v : IndexValue) × (vs ≡ v ∷ [])
single [] n = absurd (omega arith)
single (v ∷ []) n = (v, refl)
single (v ∷ w ∷ vs) n = absurd (omega arith)

module _ (part_id : ℕ) (def : IndexDef) where
  key_prefix-successor :
      (end : Bytes) × (prefix_successor (tag_index_prefix_with_values part_id def.id []) ≡ some end)
  unfolding tag_index_prefix_with_values tag_index_prefix index_prefix encode_values
  key_prefix-successor =
      rw (append_assoc (write_u32 part_id) (4 ∷ write_u32 def.id) [])
        (successor-some (write_u32 part_id) 4 (write_u32 def.id ++ []) (omega arith))

  lookup_tag_range-scan :
      (s : MemoryKvStore) (x : ℤ) (op : RangeOperator) (end : Bytes)
      → length def.fields ≡ 1
      → prefix_successor (tag_index_prefix_with_values part_id def.id []) ≡ some end
      → lookup_tag_range plain s part_id def (int x) op 0 ≡ (
          collect
            (λ (e : Entry). tag_entry plain def part_id e.0)
            (from_to
              (limit_at part_id def.id (from_it op) (low op x) end)
              (limit_at part_id def.id (to_it op) (high op x) end)
              s.current)
          >>= λ results. ok results)
  unfolding lookup_tag_range scan_tag_index scan_entries type_bounds
  lookup_tag_range-scan s x greater_than end n e = rw (n, e, scan_range_all s _ _) refl
  lookup_tag_range-scan s x greater_than_or_equal end n e = rw (n, e, scan_range_all s _ _) refl
  lookup_tag_range-scan s x less_than end n e = rw (n, e, scan_range_all s _ _) refl
  lookup_tag_range-scan s x less_than_or_equal end n e = rw (n, e, scan_range_all s _ _) refl

  -- The limits decide an entry with a value as the operator decides the value.
  key-inside :
      (op : RangeOperator) (x : ℤ) (end : Bytes) (v : IndexValue) (vid : ℤ)
      → IsI64 x
      → Fits plain v
      → AreBytes (tag_index_key part_id def.id (v ∷ []) vid)
      → (not (
            lex_ltb
              (tag_index_key part_id def.id (v ∷ []) vid)
              (limit_at part_id def.id (from_it op) (low op x) end))
          && lex_ltb
              (tag_index_key part_id def.id (v ∷ []) vid)
              (limit_at part_id def.id (to_it op) (high op x) end))
        ≡ inside op x v
  key-inside op x end v vid hx f hk =
      rw
        (
          entry-limit_at part_id def.id (from_it op) (low op x) end v vid (low-IsI64 op x hx) f hk,
          entry-limit_at part_id def.id (to_it op) (high op x) end v vid (high-IsI64 op x hx) f hk,
        )
        refl

  -- An entry within the limits has an integer that the operator accepts.
  entry-accepted :
      (op : RangeOperator) (x : ℤ) (end key : Bytes) (r : TagEntry plain part_id def key)
      → IsI64 x
      → length def.fields ≡ 1
      → AreBytes key
      → lex_ltb key (limit_at part_id def.id (from_it op) (low op x) end) ≡ false
      → lex_ltb key (limit_at part_id def.id (to_it op) (high op x) end) ≡ true
      → (y : ℤ) × IsI64 y
        × (accepts op x y ≡ true)
        × (key ≡ tag_index_key part_id def.id (int y ∷ []) r.vid)
  entry-accepted op x end key r hx n hk above under =
      let (v, one) = single r.values (r.enough ∙ n) in
      let layout : key ≡ tag_index_key part_id def.id (v ∷ []) r.vid = r.layout ∙ rw one refl in
      let whole : All (Fits plain) (v ∷ []) = subst (λ vs. All (Fits plain) vs) one r.whole in
      let decided = key-inside op x end v r.vid hx whole.0 (subst AreBytes layout hk) in
      let met : inside op x v ≡ true = sym decided ∙ rw (← layout) (rw (above, under) refl) in
      let (y, int_eq) = inside-is-int op x v met in
      let fits : IsI64 y = subst (Fits plain) int_eq whole.0 in
      let met_int : inside op x (int y) ≡ true = ap (inside op x) (sym int_eq) ∙ met in
      (y, fits, sym (inside-int op x y fits) ∙ met_int, layout ∙ rw int_eq refl)

  -- In a store in key order with keys of bytes, whose keys under an index of one field in a
  -- partition all are entries of the index, a range lookup by a 64-bit integer without a limit
  -- succeeds, and a vertex of a 64-bit id is in the result exactly when the store has its entry
  -- for some 64-bit integer that the operator accepts.
  pub lookup_tag_range_lem :
      (s : MemoryKvStore) (x : ℤ) (op : RangeOperator)
      → IsTagIndex part_id def s
      → All (λ (e : Entry). AreBytes e.0) s.current
      → length def.fields ≡ 1
      → IsI64 x
      → (vid : ℤ) → IsI64 vid
      → (vids : List ℤ) × (lookup_tag_range plain s part_id def (int x) op 0 ≡ ok vids)
        × (Within vid vids ↔ (
            (y : ℤ) × IsI64 y
            × (accepts op x y ≡ true)
            × ((b : Bytes) × (get s (tag_index_key part_id def.id (int y ∷ []) vid) ≡ some b))))
  unfolding get
  lookup_tag_range_lem s x op h bytes n hx vid small =
      let (end, e) = key_prefix-successor in
      let start = limit_at part_id def.id (from_it op) (low op x) end in
      let stop = limit_at part_id def.id (to_it op) (high op x) end in
      let found = from_to start stop s.current in
      let are_bytes = All-Within (λ (t : Entry). AreBytes t.0) s.current bytes in
      let entry : (t : Entry) → Within t found → TagEntry plain part_id def t.0 = λ t m.
        let (u, above, under) = (from_to-Within start stop s.current t).0 m in
        h.entries t u (
          limits-prefix part_id def.id (from_it op) (to_it op) (low op x) (high op x) end t.0
            (are_bytes t u) above under) in
      let (vids, collected, count, members) =
        collect_lem (λ (t : Entry). tag_entry plain def part_id t.0) found
          (λ t m. ((entry t m).vid, tag_entry_lem plain part_id def t.0 (entry t m))) in
      (
        vids,
        lookup_tag_range-scan s x op end n e ∙ rw collected refl,
        (
          λ m.
              let (t, u, read) = (members vid).0 m in
              let r = entry t u in
              let vid_eq : r.vid ≡ vid =
                ok_inj (sym (tag_entry_lem plain part_id def t.0 r) ∙ read) in
              let (stored, above, under) = (from_to-Within start stop s.current t).0 u in
              let (y, fits, accepted, layout) =
                entry-accepted op x end t.0 r hx n (are_bytes t stored) above under in
              (
                y,
                fits,
                accepted,
                (find-Within s.current (tag_index_key part_id def.id (int y ∷ []) vid)).1
                    (t, stored, layout ∙ ap (tag_index_key part_id def.id (int y ∷ [])) vid_eq),
              ),
          λ (y, fits, accepted, f).
              let key = tag_index_key part_id def.id (int y ∷ []) vid in
              let (t, stored, q) = (find-Within s.current key).0 f in
              let hk : AreBytes key = subst AreBytes q (are_bytes t stored) in
              let decided =
                key-inside op x end (int y) vid hx fits hk ∙ inside-int op x y fits ∙ accepted in
              let here : (not (lex_ltb t.0 start) && lex_ltb t.0 stop) ≡ true = rw q decided in
              let u : Within t found =
                (from_to-Within start stop s.current t).1
                  (stored, ground (arith, here), ground (arith, here)) in
              let r = entry t u in
              let same_vid : some r.vid ≡ some vid =
                sym (parse_tag_index_vid-tag_index_key part_id def.id r.values r.vid r.small)
                ∙ ap parse_tag_index_vid (sym r.layout ∙ q)
                ∙ parse_tag_index_vid-tag_index_key part_id def.id (int y ∷ []) vid small in
              (members vid).1
                (t, u, tag_entry_lem plain part_id def t.0 r ∙ ap ok (some_inj same_vid)),
        ),
      )
