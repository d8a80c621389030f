-- ===== src/Index/Scans/Lookups.antt =====
-- byoridb-storage/src/index.rs: a lookup in a tag index finds exactly the vertices with an entry.
use mathlib.Core.List.{append_assoc}
use byoridb.Base.{
  ℕ, ◌^◌, ◌<◌, ◌≡◌, ◌↔◌, inl, inr, refl, sym, ap, ◌∙◌, true, List, [], ◌∷◌, ◌++◌, none, some,
  some_inj, All, length, retain, drop, arith,
}
use byoridb.Base.Ordered.{IsSorted, insert-IsSorted, remove-IsSorted}
use byoridb.Base.Lex.{lex_ltb, lex-IsOrder, starts_with, starts_with-append}
use byoridb.Base.Members.{Within, Within-retain, insert-Within, remove-Within}
use byoridb.Raft.Types.{Bytes}
use byoridb.Keys.BigEndian.{ℤ, IsI64, write_i64}
use byoridb.Keys.Values.{IndexValue}
use byoridb.Keys.Values.RoundTrip.{Fits}
use byoridb.Keys.Layout.{
  encode_values, tag_index_prefix, tag_index_prefix_with_values, tag_index_key, parse_tag_index_vid,
}
use byoridb.Keys.Layout.Reads.{parse_tag_index_vid-tag_index_key}
use byoridb.Keys.Layout.Apart.{scan_by_values_exact}
use byoridb.Kv.{MemoryKvStore, Entry, get, put, delete, scan_prefix, scan_with_filter, prefix_range}
use byoridb.Kv.Scans.{with_prefix, scan_prefix_lem}
use byoridb.Kv.Visits.{scan_prefix_limited}
use byoridb.Index.{IndexDef, ok, ◌>>=◌}
use byoridb.Index.Scans.{
  collect, tag_entry, scan_entries, scan_tag_index, lookup_tag, insert_tag_index, delete_tag_index,
}
use byoridb.Index.Scans.Entries.{collect_lem, find-Within, TagEntry, tag_entry_lem}

pub starts_with-cut : (p k : Bytes) → starts_with p k ≡ true → k ≡ p ++ drop (length p) k
unfolding starts_with
starts_with-cut [] k h = refl
starts_with-cut (x ∷ p) [] h = cc
starts_with-cut (x ∷ p) (y ∷ k) h = ground (arith, starts_with-cut p k)

-- The value of the strings of the fields is what is stored.
abbrev pub plain : Bytes → Bytes
plain b = b

pub starts_with-values :
    (part_id index_id : ℕ) (values : List IndexValue) (k : Bytes)
    → starts_with (tag_index_prefix_with_values part_id index_id values) k ≡ true
    → starts_with (tag_index_prefix part_id index_id) k ≡ true
unfolding tag_index_prefix_with_values
starts_with-values part_id index_id values k h =
    let p = tag_index_prefix part_id index_id in
    let q = p ++ encode_values values in
    rw (starts_with-cut q k h, append_assoc p (encode_values values) (drop (length q) k))
      (starts_with-append p (encode_values values ++ drop (length q) k))

module _ (part_id : ℕ) (def : IndexDef) where
  -- The keys under the index in the partition are entries of the index.
  pub record IsTagIndex (s : MemoryKvStore) : Type 0 where
    pub sorted : IsSorted lex_ltb s.current
    pub entries :
        (e : Entry)
        → Within e s.current
        → starts_with (tag_index_prefix part_id def.id) e.0 ≡ true
        → TagEntry plain part_id def e.0

  pub starts_with-key :
      (values : List IndexValue) (vid : ℤ)
      → starts_with
          (tag_index_prefix_with_values part_id def.id values)
          (tag_index_key part_id def.id values vid)
        ≡ true
  unfolding tag_index_prefix_with_values tag_index_key
  starts_with-key values vid =
      rw (← append_assoc (tag_index_prefix part_id def.id) (encode_values values) (write_i64 vid)) (
        starts_with-append (tag_index_prefix part_id def.id ++ encode_values values)
          (write_i64 vid))

  scanned :
      (s : MemoryKvStore) (prefix : Bytes)
      → IsSorted lex_ltb s.current
      → scan_prefix_limited s prefix none ≡ with_prefix prefix s.current
  unfolding scan_prefix_limited scan_with_filter
  scanned s prefix o =
      kept (prefix_range prefix prefix s.current) ∙ unfold scan_prefix in scan_prefix_lem s prefix o
    where
      kept : (es : List Entry) → retain (λ e. true) es ≡ es
      kept [] = refl
      kept (e ∷ es) = ap (◌∷◌ e) (kept es)

  lookup_tag-scan :
      (s : MemoryKvStore) (values : List IndexValue)
      → IsSorted lex_ltb s.current
      → lookup_tag plain s part_id def values 0 ≡ (
          collect
            (λ (e : Entry). tag_entry plain def part_id e.0)
            (with_prefix (tag_index_prefix_with_values part_id def.id values) s.current)
          >>= λ results. ok results)
  unfolding lookup_tag scan_tag_index scan_entries
  lookup_tag-scan s values o =
      rw (scanned s (tag_index_prefix_with_values part_id def.id values) o) refl

  -- In a store in key order whose keys under an index in a partition (both ids of 32 bits) all
  -- are entries of the index, a lookup without a limit, by values that a key holds whole, one for
  -- each field, succeeds, and a vertex of a 64-bit id is in the result exactly when the store has
  -- its entry for those values.
  pub lookup_tag_lem :
      (s : MemoryKvStore) (values : List IndexValue)
      → part_id < 2 ^ 32
      → def.id < 2 ^ 32
      → IsTagIndex s
      → All (Fits plain) values
      → length values ≡ length def.fields
      → (vid : ℤ) → IsI64 vid
      → (vids : List ℤ) × (lookup_tag plain s part_id def values 0 ≡ ok vids)
        × (Within vid vids
            ↔ ((b : Bytes) × (get s (tag_index_key part_id def.id values vid) ≡ some b)))
  unfolding get
  lookup_tag_lem s values hp hi h w n vid small =
      let prefix = tag_index_prefix_with_values part_id def.id values in
      let found = with_prefix prefix s.current in
      let entry : (e : Entry) → Within e found → TagEntry plain part_id def e.0 = λ e m.
        let (u, k) = (Within-retain (λ (t : Entry). starts_with prefix t.0) s.current e).0 m in
        h.entries e u (starts_with-values part_id def.id values e.0 k) in
      let (vids, collected, count, members) =
        collect_lem (λ (e : Entry). tag_entry plain def part_id e.0) found
          (λ e m. ((entry e m).vid, tag_entry_lem plain part_id def e.0 (entry e m))) in
      (
        vids,
        lookup_tag-scan s values h.sorted ∙ rw collected refl,
        (
          λ m.
              let (e, u, read) = (members vid).0 m in
              let t = entry e u in
              let vid_eq : t.vid ≡ vid =
                ok_inj (sym (tag_entry_lem plain part_id def e.0 t) ∙ read) in
              let (stored, k) =
                (Within-retain (λ (x : Entry). starts_with prefix x.0) s.current e).0 u in
              let (_, _, values_eq, _) =
                scan_by_values_exact part_id part_id def.id def.id t.values values t.vid
                  (drop (length prefix) e.0) hp hp hi hi (t.enough ∙ sym n) t.whole w
                  (sym t.layout ∙ starts_with-cut prefix e.0 k) in
              (find-Within s.current (tag_index_key part_id def.id values vid)).1
                (e, stored, t.layout ∙ rw (values_eq, vid_eq) refl),
          λ f.
              let (e, u, q) =
                (find-Within s.current (tag_index_key part_id def.id values vid)).0 f in
              let k : starts_with prefix e.0 ≡ true = rw q (starts_with-key values vid) in
              let kept =
                (Within-retain (λ (x : Entry). starts_with prefix x.0) s.current e).1 (u, k) in
              let t = entry e kept in
              let same_vid : some t.vid ≡ some vid =
                sym (parse_tag_index_vid-tag_index_key part_id def.id t.values t.vid t.small)
                ∙ ap parse_tag_index_vid (sym t.layout ∙ q)
                ∙ parse_tag_index_vid-tag_index_key part_id def.id values vid small in
              (members vid).1
                (e, kept, tag_entry_lem plain part_id def e.0 t ∙ ap ok (some_inj same_vid)),
        ),
      )
    where
      ok_inj : {u v : ℤ} → ok u ≡ ok v → u ≡ v
      ok_inj q = cc

  -- Inserting an entry with a value for each field, each held whole by a key, and a vertex of a
  -- 64-bit id keeps the store in key order and its keys under the index in the partition entries
  -- of the index.
  pub insert_tag_index-IsTagIndex :
      (s : MemoryKvStore) (values : List IndexValue) (vid : ℤ)
      → IsTagIndex s
      → length values ≡ length def.fields
      → All (Fits plain) values
      → IsI64 vid
      → IsTagIndex (insert_tag_index s part_id def.id values vid)
  unfolding insert_tag_index put
  insert_tag_index-IsTagIndex s values vid h n w small = record {
    sorted = insert-IsSorted lex_ltb lex-IsOrder _ _ s.current h.sorted;
    entries = λ e m k.
        elim (insert-Within lex_ltb (tag_index_key part_id def.id values vid) [] s.current e m) [
          | inl q ↦ record {
            values = values;
            vid = vid;
            layout = ap (λ (t : Entry). t.0) q;
            enough = n;
            whole = w;
            small = small;
          }
          | inr u ↦ h.entries e u k
        ];
  }

  pub delete_tag_index-IsTagIndex :
      (s : MemoryKvStore) (values : List IndexValue) (vid : ℤ)
      → IsTagIndex s
      → IsTagIndex (delete_tag_index s part_id def.id values vid)
  unfolding delete_tag_index delete
  delete_tag_index-IsTagIndex s values vid h = record {
    sorted = remove-IsSorted lex_ltb lex-IsOrder _ s.current h.sorted;
    entries = λ e m k. h.entries e (remove-Within lex_ltb _ s.current e m) k;
  }
