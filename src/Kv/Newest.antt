-- ===== src/Kv/Newest.antt =====
-- byoridb-kvstore/src/store.rs: what `get_as_of` promises, and the histories for which it holds.
use byoridb.Base.{
  ◌≡◌, ◌⊎◌, inl, inr, refl, ◌∙◌, true, false, List, [], ◌∷◌, none, some, arith, All, Bool-cases,
}
use byoridb.Base.Ordered.{insert, insert-IsSorted}
use byoridb.Base.Lex.{lex_ltb, lex-IsOrder}
use byoridb.Raft.Types.{Bytes}
use byoridb.Keys.BigEndian.{ℤ, IsI64}
use byoridb.Kv.{
  MemoryKvStore, VersionRecord, Entry, lt_i64, put_version, scan_history, get_as_of, not_older,
  covers, best_version, get_as_of_default,
}
use byoridb.Kv.Versions.{NoZero, IsTimely}
use byoridb.Kv.AsOf.{lt_i64_asym, IsVersion, IsHistory, get_as_of-get_as_of_default}

abbrev pub Within : VersionRecord → List VersionRecord → Type 0
Within b [] = ⊥
Within b (v ∷ vs) = (b ≡ v) ⊎ Within b vs

-- No version of the list covers the instants.
abbrev pub Uncovered : List VersionRecord → ℤ → ℤ → Type 0
Uncovered vs va ta = All (λ w. covers w va ta ≡ false) vs

-- Of the versions in the list that cover the instants `b` is the newest.
abbrev pub IsNewest : VersionRecord → List VersionRecord → ℤ → ℤ → Type 0
IsNewest b vs va ta = All (λ w. covers w va ta ≡ true → not_older b w ≡ true) vs

lt_i64_connected_trans : (i j k : ℤ) → lt_i64 i k ≡ true → (lt_i64 i j ≡ true) ⊎ (lt_i64 j k ≡ true)
unfolding lt_i64
lt_i64_connected_trans (ℤ.pos a) (ℤ.pos b) (ℤ.pos c) h = ground arith
lt_i64_connected_trans (ℤ.pos a) (ℤ.pos b) (ℤ.negsuc c) h = cc
lt_i64_connected_trans (ℤ.pos a) (ℤ.negsuc b) (ℤ.pos c) h = inr refl
lt_i64_connected_trans (ℤ.pos a) (ℤ.negsuc b) (ℤ.negsuc c) h = cc
lt_i64_connected_trans (ℤ.negsuc a) (ℤ.pos b) (ℤ.pos c) h = inl refl
lt_i64_connected_trans (ℤ.negsuc a) (ℤ.pos b) (ℤ.negsuc c) h = inl refl
lt_i64_connected_trans (ℤ.negsuc a) (ℤ.negsuc b) (ℤ.pos c) h = inr refl
lt_i64_connected_trans (ℤ.negsuc a) (ℤ.negsuc b) (ℤ.negsuc c) h = ground arith

not_older_trans :
    (a b c : VersionRecord) → not_older a b ≡ true → not_older b c ≡ true → not_older a c ≡ true
unfolding not_older
not_older_trans a b c h k = ground (
  arith,
  lt_i64_connected_trans a.valid_from b.valid_from c.valid_from,
  lt_i64_connected_trans b.valid_from c.valid_from a.valid_from,
  lt_i64_connected_trans c.valid_from b.valid_from a.valid_from,
  lt_i64_connected_trans c.valid_from a.valid_from b.valid_from,
  lt_i64_connected_trans b.valid_from a.valid_from c.valid_from,
  lt_i64_connected_trans a.tx b.tx c.tx,
  lt_i64_asym a.valid_from b.valid_from,
  lt_i64_asym b.valid_from c.valid_from,
  lt_i64_asym a.valid_from c.valid_from,
)

-- What does not keep its place is older.
replaced : (b v : VersionRecord) → not_older b v ≡ false → not_older v b ≡ true
unfolding not_older
replaced b v h = ground (arith, lt_i64_asym b.valid_from v.valid_from, lt_i64_asym b.tx v.tx)

not_older_refl : (v : VersionRecord) → not_older v v ≡ true
unfolding not_older
not_older_refl v = ground (arith, lt_i64_asym v.valid_from v.valid_from, lt_i64_asym v.tx v.tx)

best_version-some :
    (vs : List VersionRecord) (b : VersionRecord) (va ta : ℤ)
    → covers b va ta ≡ true
    → (r : VersionRecord) × (best_version (some b) vs va ta ≡ some r)
      × ((r ≡ b) ⊎ Within r vs)
      × (covers r va ta ≡ true)
      × (not_older r b ≡ true)
      × IsNewest r vs va ta
unfolding best_version
best_version-some [] b va ta h = (b, refl, inl refl, h, not_older_refl b, tt)
best_version-some (v ∷ vs) b va ta h = elim (Bool-cases (covers v va ta)) [
  | inl c ↦ elim (Bool-cases (not_older b v)) [
    | inl kept ↦
        let (r, e, i, k, n, all) = best_version-some vs b va ta h in
        (r, rw (c, kept) e, ground arith, k, n, (λ q. not_older_trans r b v n kept, all))
    | inr new ↦
        let (r, e, i, k, n, all) = best_version-some vs v va ta c in
        (
          r,
          rw (c, new) e,
          ground arith,
          k,
          not_older_trans r v b n (replaced b v new),
          (λ q. n, all),
        )
  ]
  | inr c ↦
      let (r, e, i, k, n, all) = best_version-some vs b va ta h in
      (r, rw c e, ground arith, k, n, (λ q. absurd (cc), all))
]

best_version-none :
    (vs : List VersionRecord) (va ta : ℤ)
    → ((best_version none vs va ta ≡ none) × Uncovered vs va ta)
      ⊎ ((r : VersionRecord) × (best_version none vs va ta ≡ some r)
          × Within r vs
          × (covers r va ta ≡ true)
          × IsNewest r vs va ta)
unfolding best_version
best_version-none [] va ta = inl (refl, tt)
best_version-none (v ∷ vs) va ta = elim (Bool-cases (covers v va ta)) [
  | inl c ↦
      let (r, e, i, k, n, all) = best_version-some vs v va ta c in
      inr (r, rw c e, ground arith, k, (λ q. n, all))
  | inr c ↦ elim (best_version-none vs va ta) [
    | inl (e, all) ↦ inl (rw c e, (c, all))
    | inr (r, e, i, k, all) ↦ inr (r, rw c e, inr i, k, (λ q. absurd (cc), all))
  ]
]

-- In a store whose history is in key order and holds only versions put for keys without a zero
-- byte at 64-bit times, a read of a key without a zero byte as of two 64-bit instants finds
-- nothing exactly where no version of the key's history covers them, or else the value of a
-- version of that history that covers them and is not older than any other that does.
pub get_as_of_lem :
    (s : MemoryKvStore) (ek : Bytes) (va ta : ℤ)
    → IsHistory s.history
    → NoZero ek
    → IsI64 va
    → IsI64 ta
    → ((get_as_of s ek va ta ≡ none) × Uncovered (scan_history s ek) va ta)
      ⊎ ((r : VersionRecord) × (get_as_of s ek va ta ≡ some r.value)
          × Within r (scan_history s ek)
          × (covers r va ta ≡ true)
          × IsNewest r (scan_history s ek) va ta)
get_as_of_lem s ek va ta h z a b =
    let same = get_as_of-get_as_of_default s ek va ta h z a b in
    elim (best_version-none (scan_history s ek) va ta) [
      | inl (e, all) ↦ inl (same ∙ unfold get_as_of_default in rw e refl, all)
      | inr (r, e, i, k, all) ↦ inr (r, same ∙ unfold get_as_of_default in rw e refl, i, k, all)
    ]

All-insert :
    (k v : Bytes) (h : List Entry)
    → IsVersion (k, v)
    → All IsVersion h
    → All IsVersion (insert lex_ltb k v h)
unfolding insert
All-insert k v [] x a = (x, tt)
All-insert k v ((j, w) ∷ h) x a = ground (arith, All-insert k v h x a.1)

-- A version put for a key without a zero byte at 64-bit times keeps the history in key order and
-- holding only versions put for such keys at such times.
pub put_version-IsHistory :
    (s : MemoryKvStore) (ek : Bytes) (v : VersionRecord)
    → NoZero ek
    → IsTimely v
    → IsHistory s.history
    → IsHistory (put_version s ek v.valid_from v.valid_to v.tx v.value).history
unfolding put_version
put_version-IsHistory s ek v z t h = record {
  sorted = insert-IsSorted lex_ltb lex-IsOrder _ _ s.history h.sorted;
  versions =
      All-insert _ _ s.history
        (record { entity = ek; version = v; text = z; timely = t; stored = refl }) h.versions;
}
