-- ===== src/Kv/AsOf.antt =====
-- byoridb-kvstore/src/store.rs: the in-memory store finds a version by a seek, the trait by a walk over
-- the whole history of the entity; both find the same.
use byoridb.Base.{
  ◌≡◌, ◌⊎◌, inl, inr, refl, sym, ap, ◌∙◌, true, false, not, ◌&&◌, List, [], ◌∷◌, none, some, retain,
  if◌then◌else◌, arith, All, Bool-cases,
}
use byoridb.Base.Ordered.{IsSorted, AllAbove}
use byoridb.Base.Lex.{
  lex_ltb, starts_with, starts_with-append, starts_with_self, starts_with-not-below, scan_lem,
  in_range,
}
use byoridb.Raft.Types.{Bytes}
use byoridb.Keys.BigEndian.{ℤ, IsI64}
use byoridb.Kv.{
  MemoryKvStore, VersionRecord, Entry, lt_i64, history_prefix, history_key, prefix_range,
  decode_entries, scan_history, first_visible, get_as_of, not_older, covers, best_version, value_of,
  get_as_of_default,
}
use byoridb.Kv.Versions.{
  NoZero, IsTimely, entry_of, parse-history_key, decode-history_value, prefix_apart,
  history_key-order,
}

-- An entry that `put_version` has stored for some entity.
pub record IsVersion (e : Entry) : Type 0 where
  pub entity : Bytes
  pub version : VersionRecord
  pub text : NoZero entity
  pub timely : IsTimely version
  pub stored : e ≡ entry_of entity version

pub record IsHistory (h : List Entry) : Type 0 where
  pub sorted : IsSorted lex_ltb h
  pub versions : All IsVersion h

-- The two loops on an entry of the entity.
first_visible-cons :
    (ek : Bytes) (v : VersionRecord) (rest : List Entry) (va ta : ℤ)
    → IsTimely v
    → first_visible (entry_of ek v ∷ rest) va ta ≡ (
        if not (lt_i64 ta v.tx) && lt_i64 va v.valid_to
        then some v.value
        else first_visible rest va ta)
unfolding first_visible
first_visible-cons ek v rest va ta t = ground (
  arith,
  parse-history_key ek v.valid_from v.tx t.from t.at,
  decode-history_value v.valid_to v.value t.to,
)

decode_entries-cons :
    (ek : Bytes) (v : VersionRecord) (rest : List Entry)
    → IsTimely v
    → decode_entries (entry_of ek v ∷ rest) ≡ v ∷ decode_entries rest
unfolding decode_entries
decode_entries-cons ek v rest t = ground (
  arith,
  parse-history_key ek v.valid_from v.tx t.from t.at,
  decode-history_value v.valid_to v.value t.to,
)

pub lt_i64_asym : (i j : ℤ) → lt_i64 i j ≡ true → lt_i64 j i ≡ false
unfolding lt_i64
lt_i64_asym (ℤ.pos a) (ℤ.pos b) h = ground arith
lt_i64_asym (ℤ.pos a) (ℤ.negsuc b) h = cc
lt_i64_asym (ℤ.negsuc a) (ℤ.pos b) h = refl
lt_i64_asym (ℤ.negsuc a) (ℤ.negsuc b) h = ground arith

-- An entry that stands before another of its entity is no older.
before-not_older :
    (ek : Bytes) (v w : VersionRecord)
    → IsTimely v
    → IsTimely w
    → lex_ltb (history_key ek v.valid_from v.tx) (history_key ek w.valid_from w.tx) ≡ true
    → not_older v w ≡ true
unfolding not_older
before-not_older ek v w t u h = ground (
  arith,
  history_key-order ek v.valid_from v.tx w.valid_from w.tx t.from t.at u.from u.at,
  lt_i64_asym w.tx v.tx,
)

module _ (ek : Bytes) (z : NoZero ek) where
  classify :
      (e : Entry)
      → IsVersion e
      → (starts_with (history_prefix ek) e.0 ≡ false)
        ⊎ ((w : VersionRecord) × IsTimely w × (e ≡ entry_of ek w))
  classify e u = elim (Bool-cases (starts_with (history_prefix ek) e.0)) [
    | inl s ↦
        let named : starts_with (history_prefix ek)
              (history_key u.entity u.version.valid_from u.version.tx)
            ≡ true =
          sym (ap (λ x. starts_with (history_prefix ek) x.0) u.stored) ∙ s in
        let q = prefix_apart ek u.entity u.version.valid_from u.version.tx z u.text named in
        inr (u.version, u.timely, u.stored ∙ ap (λ x. entry_of x u.version) (sym q))
    | inr f ↦ inl f
  ]

  abbrev of_entity : List Entry → List Entry
  of_entity h = retain (in_range (history_prefix ek) (history_prefix ek)) h

  of_entity-skip :
      (e : Entry) (h : List Entry) (lo : Bytes)
      → starts_with (history_prefix ek) e.0 ≡ false
      → retain (in_range (history_prefix ek) lo) (e ∷ h)
        ≡ retain (in_range (history_prefix ek) lo) h
  of_entity-skip e h lo f = ground arith

  starts : (w : VersionRecord) → starts_with (history_prefix ek) (entry_of ek w).0 ≡ true
  unfolding history_key
  starts w = starts_with-append (history_prefix ek) _

  of_entity-keep :
      (w : VersionRecord) (h : List Entry)
      → of_entity (entry_of ek w ∷ h) ≡ entry_of ek w ∷ of_entity h
  of_entity-keep w h =
      ground (arith, starts w, starts_with-not-below (history_prefix ek) (entry_of ek w).0)

  module _ (va ta : ℤ) where
    best_stays :
        (h : List Entry) (v : VersionRecord)
        → All IsVersion h
        → IsTimely v
        → AllAbove lex_ltb (history_key ek v.valid_from v.tx) h
        → best_version (some v) (decode_entries (of_entity h)) va ta ≡ some v
    unfolding best_version
    best_stays [] v u t a = unfold decode_entries in refl
    best_stays (e ∷ h) v u t a = elim (classify e u.0) [
      | inl f ↦ rw (of_entity-skip e h (history_prefix ek) f) (best_stays h v u.1 t a.1)
      | inr (w, tw, q) ↦
          let old = before-not_older ek v w t tw (rw q at a.0) in
          rw (q, of_entity-keep w h, decode_entries-cons ek w (of_entity h) tw)
            (ground (arith, old, best_stays h v u.1 t a.1))
    ]

    module _ (iva : IsI64 va) (ita : IsI64 ta) where
      seek_cons :
          (w : VersionRecord) (h : List Entry)
          → IsTimely w
          → AllAbove lex_ltb (history_key ek w.valid_from w.tx) h
          → All IsVersion h
          → first_visible (retain (in_range (history_prefix ek) (history_key ek va ta)) h) va ta
            ≡ value_of (best_version none (decode_entries (of_entity h)) va ta)
          → first_visible
              (retain (in_range (history_prefix ek) (history_key ek va ta)) (entry_of ek w ∷ h))
              va
              ta
            ≡ value_of (best_version none (w ∷ decode_entries (of_entity h)) va ta)
      unfolding best_version covers
      seek_cons w h tw a u ih = ground (
        arith,
        ih,
        best_stays h w u tw a,
        starts w,
        first_visible-cons ek w (retain (in_range (history_prefix ek) (history_key ek va ta)) h) va
            ta tw,
        history_key-order ek w.valid_from w.tx va ta tw.from tw.at iva ita,
      )

      seek_lem :
          (h : List Entry)
          → IsSorted lex_ltb h
          → All IsVersion h
          → first_visible (retain (in_range (history_prefix ek) (history_key ek va ta)) h) va ta
            ≡ value_of (best_version none (decode_entries (of_entity h)) va ta)
      unfolding IsSorted
      seek_lem [] s u = unfold decode_entries best_version first_visible in refl
      seek_lem (e ∷ h) s u = elim (classify e u.0) [
        | inl f ↦
            rw
              (
                of_entity-skip e h (history_key ek va ta) f,
                of_entity-skip e h (history_prefix ek) f,
              )
              (seek_lem h s.1 u.1)
        | inr (w, tw, q) ↦
            rw (q, of_entity-keep w h, decode_entries-cons ek w (of_entity h) tw)
              (seek_cons w h tw (rw q at s.0) u.1 (seek_lem h s.1 u.1))
      ]

-- In a store whose history is in key order and holds only versions put for keys without a zero
-- byte at 64-bit times, the in-memory store's seek for a key without a zero byte at 64-bit
-- instants finds what the trait's walk over the whole history of the key finds.
pub get_as_of-get_as_of_default :
    (s : MemoryKvStore) (ek : Bytes) (va ta : ℤ)
    → IsHistory s.history
    → NoZero ek
    → IsI64 va
    → IsI64 ta
    → get_as_of s ek va ta ≡ get_as_of_default s ek va ta
unfolding get_as_of get_as_of_default prefix_range scan_history
get_as_of-get_as_of_default s ek va ta h z a b =
    let p = history_prefix ek in
    let seek =
      scan_lem p (history_key ek va ta) (unfold history_key in starts_with-append p _) s.history
        h.sorted in
    let walk = scan_lem p p (starts_with_self p) s.history h.sorted in
    rw (seek, walk) (seek_lem ek z va ta a b s.history h.sorted h.versions)
