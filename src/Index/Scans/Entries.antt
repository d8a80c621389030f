-- ===== src/Index/Scans/Entries.antt =====
-- byoridb-storage/src/index.rs: the entries of a tag index in a store, and what a scanned entry is read as.
use mathlib.Core.List.{append_assoc, append-nil}
use byoridb.Base.{
  ℕ, ◌-◌, ◌≡◌, ◌↔◌, inl, inr, refl, sym, ap, subst, ◌∙◌, true, List, [], ◌∷◌, ◌++◌, some, All,
  length, length-append, take, drop, take_prefix, drop_prefix, arith, Bool-cases,
}
use byoridb.Base.Ordered as Tree
use byoridb.Base.Ordered.{same}
use byoridb.Base.Lex.{lex_ltb}
use byoridb.Base.Members.{Within}
use byoridb.Raft.Types.{Bytes}
use byoridb.Keys.BigEndian.{ℤ, IsI64, write_i64, length-be_bytes, as_u64}
use byoridb.Keys.Values.{IndexValue, encode, encoded_len}
use byoridb.Keys.Values.RoundTrip.{Fits, decode-encode, length-encode}
use byoridb.Keys.Layout.{encode_values, tag_index_prefix, tag_index_key}
use byoridb.Keys.Layout.Reads.{parse_tag_index_vid-tag_index_key}
use byoridb.Kv.{Entry}
use byoridb.Kv.Scans.{same_eq}
use byoridb.Raft.Storage.Keys.{same_self}
use byoridb.Index.{IndexDef, IndexResult, ok}
use byoridb.Index.Scans.{collect, skip_values, has_layout, tag_entry}

-- A list of results that all are values is collected, and no value is lost or new.
pub collect_lem :
    {A B : Type 0} (f : A → IndexResult B) (xs : List A)
    → ((x : A) → Within x xs → (y : B) × (f x ≡ ok y))
    → (ys : List B) × (collect f xs ≡ ok ys)
      × (length ys ≡ length xs)
      × ((y : B) → Within y ys ↔ ((x : A) × Within x xs × (f x ≡ ok y)))
unfolding collect
collect_lem f [] h = ([], refl, refl, λ y. (λ w. absurd w, λ (x, w, e). w))
collect_lem {B} f (x ∷ xs) h =
    let (y, e) = h x (inl refl) in
    let (ys, es, n, members) = collect_lem f xs (λ a w. h a (inr w)) in
    (
      y ∷ ys,
      rw (e, es) refl,
      omega (arith, n),
      λ z. (
        λ w. elim w [
          | inl q ↦ (x, inl refl, e ∙ ap ok (sym q))
          | inr v ↦ let (a, u, g) = (members z).0 v in (a, inr u, g)
        ],
        λ (a, w, g). elim w [
          | inl q ↦ inl (ok_inj (sym g ∙ rw q e))
          | inr v ↦ inr ((members z).1 (a, v, g))
        ],
      ),
    )
  where
    ok_inj : {u v : B} → ok u ≡ ok v → u ≡ v
    ok_inj q = cc

-- The keys of a table are those that it finds.
pub find-Within :
    (m : List Entry) (k : Bytes)
    → ((b : Bytes) × (Tree.lookup lex_ltb k m ≡ some b)) ↔ ((e : Entry) × Within e m × (e.0 ≡ k))
unfolding Tree.lookup
find-Within [] k = (λ (b, e). cc, λ (e, w, q). absurd w)
find-Within ((j, v) ∷ m) k = elim (Bool-cases (same lex_ltb j k)) [
  | inl y ↦ rw y (λ (b, e). ((j, v), inl refl, same_eq j k y), λ (e, w, q). (v, refl))
  | inr n ↦ rw n (
    λ f. let (e, w, q) = (find-Within m k).0 f in (e, inr w, q),
    λ (e, w, q). elim w [
      | inl p ↦
          let r : j ≡ k = ap (λ (t : Entry). t.0) (sym p) ∙ q in
          let bad : same lex_ltb j k ≡ true = rw r (same_self k) in cc
      | inr u ↦ (find-Within m k).1 (e, u, q)
    ],
  )
]

module _ (lossy : Bytes → Bytes) where
  skip_values-encode_values :
      (fields : List Bytes) (vs : List IndexValue) (rest : Bytes)
      → length vs ≡ length fields
      → All (Fits lossy) vs
      → skip_values lossy fields (encode_values vs ++ rest) ≡ some rest
  unfolding skip_values encode_values
  skip_values-encode_values [] [] rest n h = refl
  skip_values-encode_values [] (v ∷ vs) rest n h = absurd (omega arith)
  skip_values-encode_values (f ∷ fields) [] rest n h = absurd (omega arith)
  skip_values-encode_values (f ∷ fields) (v ∷ vs) rest n h =
      let more = encode_values vs ++ rest in
      let cut : drop (encoded_len v) (encode v ++ more) ≡ more =
        drop_prefix (encoded_len v) (encode v) more (length-encode v) in
      rw (append_assoc (encode v) (encode_values vs) rest) (
        ground (
          arith,
          decode-encode lossy v more h.0,
          cut,
          skip_values-encode_values fields vs rest (omega arith) h.1,
        ))

  -- A key laid out as a header, a value for each field, and the ids.
  has_layout_lem :
      (fields : List Bytes) (header ids : Bytes) (vs : List IndexValue)
      → length vs ≡ length fields
      → All (Fits lossy) vs
      → has_layout lossy fields (length header) (length ids) (header ++ (encode_values vs ++ ids))
        ≡ true
  unfolding has_layout
  has_layout_lem fields header ids vs n h =
      let body = encode_values vs in
      let all = header ++ (body ++ ids) in
      let total = length-append header (body ++ ids) in
      let tail = length-append body ids in
      let shorter : length (header ++ body) ≡ length all - length ids =
        omega (arith, total, tail, length-append header body) in
      let kept : take (length all - length ids) all ≡ header ++ body =
        rw (← append_assoc header body ids) (
          take_prefix (length ((header ++ body) ++ ids) - length ids) (header ++ body) ids
            (rw (append_assoc header body ids) shorter)) in
      let values : drop (length header) (take (length all - length ids) all) ≡ body =
        ap (drop (length header)) kept ∙ drop_prefix (length header) header body refl in
      let read : skip_values lossy fields
            (drop (length header) (take (length all - length ids) all))
          ≡ some [] =
        ap (skip_values lossy fields) (values ∙ sym (append-nil body))
        ∙ skip_values-encode_values fields vs [] n h in
      ground (arith, total, tail, read)

  -- An entry of a tag index in a partition: a value for each field that a key holds whole, and a vertex.
  pub record TagEntry (part_id : ℕ) (def : IndexDef) (key : Bytes) : Type 0 where
    pub values : List IndexValue
    pub vid : ℤ
    pub layout : key ≡ tag_index_key part_id def.id values vid
    pub enough : length values ≡ length def.fields
    pub whole : All (Fits lossy) values
    pub small : IsI64 vid

  pub tag_entry_lem :
      (part_id : ℕ) (def : IndexDef) (key : Bytes) (e : TagEntry part_id def key)
      → tag_entry lossy def part_id key ≡ ok e.vid
  unfolding tag_entry
  tag_entry_lem part_id def key e =
      let layout : has_layout lossy def.fields (length (tag_index_prefix part_id def.id)) 8
            (tag_index_key part_id def.id e.values e.vid)
          ≡ true =
        unfold tag_index_key in
        subst
          (λ (n : ℕ).
            has_layout lossy def.fields (length (tag_index_prefix part_id def.id)) n
              (tag_index_prefix part_id def.id ++ (encode_values e.values ++ write_i64 e.vid))
            ≡ true)
          (length-be_bytes 8 (as_u64 e.vid))
          (has_layout_lem def.fields (tag_index_prefix part_id def.id) (write_i64 e.vid) e.values
            e.enough e.whole) in
      rw (e.layout, layout, parse_tag_index_vid-tag_index_key part_id def.id e.values e.vid e.small)
        refl
