-- ===== src/Index/Scans/Bounds.antt =====
-- byoridb-storage/src/index.rs: where the key of an entry stands to the boundaries of a range of integers.
use mathlib.Core.List.{append_assoc, append-nil}
use byoridb.Base.{
  ℕ, zero, suc, ◌/◌, ◌%◌, ◌<◌, ◌≡◌, inl, inr, refl, ◌∙◌, Bool, true, false, not, ◌&&◌, ◌||◌, [],
  ◌∷◌, ◌++◌, some, ltb, length, drop, if◌then◌else◌, arith, Bool-cases, u64_mod,
}
use byoridb.Base.Lex.{
  lex_ltb, lex-IsOrder, starts_with, starts_with-append, starts_with_self, starts_with-between,
}
use byoridb.Raft.Types.{Bytes}
use byoridb.Keys.BigEndian.{
  ℤ, pos, negsuc, IsI64, as_u64, as_u64-lt, be_bytes, capacity, write_u64, write_u32, write_i64,
}
use byoridb.Keys.Values.{IndexValue, null, bool, int, float, string, encode, flip_sign}
use byoridb.Keys.Values.RoundTrip.{flip_sign-lt, Fits}
use byoridb.Keys.Layout.{
  encode_values, tag_index_prefix, index_prefix, tag_index_prefix_with_values, tag_index_key,
}
use byoridb.Kv.{lt_i64}
use byoridb.Kv.Versions.{lex_ltb-same, lex_ltb-be_bytes}
use byoridb.Index.Scans.{prefix_successor, or_end}
use byoridb.Index.Scans.Successor.{AreBytes, lex_nil, prefix_successor_lem, successor-some}
use byoridb.Index.Scans.Lookups.{starts_with-cut, starts_with-values, plain}

bytes-append : (a b : Bytes) → AreBytes a → AreBytes b → AreBytes (a ++ b)
bytes-append [] b h k = k
bytes-append (x ∷ a) b h k = (h.0, bytes-append a b h.1 k)

be_bytes-AreBytes : (k n : ℕ) → AreBytes (be_bytes k n)
unfolding be_bytes
be_bytes-AreBytes zero n = tt
be_bytes-AreBytes (suc k) n =
    bytes-append (be_bytes k (n / 256)) ((n % 256) ∷ []) (be_bytes-AreBytes k (n / 256))
      (omega arith, tt)

abbrev rank : ℤ → ℕ
rank i = flip_sign (as_u64 i)

rank-lt : (i j : ℤ) → IsI64 i → IsI64 j → ltb (rank i) (rank j) ≡ lt_i64 i j
unfolding lt_i64 flip_sign as_u64
rank-lt (pos a) (pos b) h k = ground arith
rank-lt (pos a) (negsuc b) h k = ground arith
rank-lt (negsuc a) (pos b) h k = ground arith
rank-lt (negsuc a) (negsuc b) h k = ground arith

rank-small : (i : ℤ) → rank i < u64_mod
rank-small i = flip_sign-lt (as_u64 i) (as_u64-lt i)

-- Numbers of one width are a prefix of what starts with the same number.
starts_with-be_bytes :
    (k a b : ℕ) (vs : Bytes)
    → a < capacity k
    → b < capacity k
    → starts_with (be_bytes k a) (be_bytes k b ++ vs) ≡ (not (ltb a b) && not (ltb b a))
starts_with-be_bytes k a b vs ha hb =
    let w = be_bytes k b ++ vs in
    elim (Bool-cases (starts_with (be_bytes k a) w)) [
      | inl y ↦
          let cut = starts_with-cut (be_bytes k a) w y in
          let rest = drop (length (be_bytes k a)) w in
          let one = lex_ltb-be_bytes k a b rest vs ha hb in
          let two = lex_ltb-be_bytes k b a vs rest hb ha in
          let self = lex-IsOrder.irrefl w in
          let one' : lex_ltb (be_bytes k a ++ rest) w ≡ false = rw (← cut) self in
          let two' : lex_ltb w (be_bytes k a ++ rest) ≡ false = rw (← cut) self in
          ground (arith, y, one, two, one', two')
      | inr n ↦
          let apart : a ≡ b → ⊥ = λ e.
            let met : starts_with (be_bytes k a) w ≡ true =
              rw e (starts_with-append (be_bytes k b) vs) in
            cc in
          ground (arith, n, apart)
    ]

-- Where a value stands to the boundary at an integer: below it, or at it.
abbrev pub below : IndexValue → ℤ → Bool
below null x = true
below (bool b) x = true
below (int y) x = lt_i64 y x
below (float bits) x = false
below (string s) x = false

abbrev pub at_bound : IndexValue → ℤ → Bool
at_bound (int y) x = not (lt_i64 y x) && not (lt_i64 x y)
at_bound null x = false
at_bound (bool b) x = false
at_bound (float bits) x = false
at_bound (string s) x = false

module _ (x : ℤ) (hx : IsI64 x) where
  encoded-below :
      (v : IndexValue) (ids : Bytes)
      → Fits plain v
      → lex_ltb (encode_values (v ∷ []) ++ ids) (encode_values (int x ∷ [])) ≡ below v x
  unfolding encode_values encode lex_ltb
  encoded-below null ids f = refl
  encoded-below (bool b) ids f = refl
  encoded-below (int y) ids f =
      let a = write_u64 (rank y) in
      let ends : lex_ltb ids [] ≡ false = lex_nil ids in
      rw (append-nil a) (
        lex_ltb-be_bytes 8 (rank y) (rank x) ids [] (omega (arith, rank-small y))
          (omega (arith, rank-small x))
        ∙ rw (rank-lt y x f hx, ends) (ground arith))
  encoded-below (float bits) ids f = refl
  encoded-below (string s) ids f = refl

  encoded-at_bound :
      (v : IndexValue) (ids : Bytes)
      → Fits plain v
      → starts_with (encode_values (int x ∷ [])) (encode_values (v ∷ []) ++ ids) ≡ at_bound v x
  unfolding encode_values encode starts_with
  encoded-at_bound null ids f = refl
  encoded-at_bound (bool b) ids f = refl
  encoded-at_bound (int y) ids f =
      rw (append-nil (write_u64 (rank y)), append-nil (write_u64 (rank x)))
        (starts_with-be_bytes 8 (rank x) (rank y) ids (omega (arith, rank-small x))
            (omega (arith, rank-small y))
          ∙ rw (rank-lt y x f hx, rank-lt x y hx f) (ground arith))
  encoded-at_bound (float bits) ids f = refl
  encoded-at_bound (string s) ids f = refl

starts_with-same : (p a b : Bytes) → starts_with (p ++ a) (p ++ b) ≡ starts_with a b
unfolding starts_with
starts_with-same [] a b = refl
starts_with-same (x ∷ p) a b = ground (arith, starts_with-same p a b)

-- Below the successor of a boundary is what is below the boundary or starts with it.
lex_ltb-successor :
    (b end k : Bytes)
    → AreBytes b
    → AreBytes k
    → prefix_successor b ≡ some end
    → lex_ltb k end ≡ (lex_ltb k b || starts_with b k)
lex_ltb-successor b end k hb hk e = ground (
  arith,
  prefix_successor_lem b end k hb hk e,
  prefix_successor_lem b end b hb hb e,
  starts_with_self b,
  lex-IsOrder.trans k b end,
)

module _ (part_id index_id : ℕ) where
  abbrev pub boundary : ℤ → Bytes
  boundary x = tag_index_prefix_with_values part_id index_id (int x ∷ [])

  boundary-AreBytes : (x : ℤ) → AreBytes (boundary x)
  unfolding tag_index_prefix_with_values tag_index_prefix index_prefix encode_values encode
  boundary-AreBytes x =
      let value = be_bytes-AreBytes 8 (rank x) in
      bytes-append (write_u32 part_id ++ (4 ∷ write_u32 index_id)) ((2 ∷ write_u64 (rank x)) ++ [])
        (bytes-append (write_u32 part_id) (4 ∷ write_u32 index_id) (be_bytes-AreBytes 4 part_id)
          (omega arith, be_bytes-AreBytes 4 index_id))
        (omega arith, bytes-append (write_u64 (rank x)) [] value tt)

  boundary-successor : (x : ℤ) → (end : Bytes) × (prefix_successor (boundary x) ≡ some end)
  unfolding tag_index_prefix_with_values tag_index_prefix index_prefix
  boundary-successor x =
      rw (append_assoc (write_u32 part_id) (4 ∷ write_u32 index_id) (encode_values (int x ∷ []))) (
        successor-some (write_u32 part_id) 4 (write_u32 index_id ++ encode_values (int x ∷ []))
          (omega arith))

  -- The first key from a boundary on, or the first one behind those that start with it.
  abbrev pub limit_at : Bool → ℤ → Bytes → Bytes
  limit_at from_it x prefix_end =
      if from_it then boundary x else or_end (prefix_successor (boundary x)) prefix_end

  lex_ltb-limit_at :
      (from_it : Bool) (x : ℤ) (prefix_end k : Bytes)
      → AreBytes k
      → lex_ltb k (limit_at from_it x prefix_end)
        ≡ (lex_ltb k (boundary x) || (not from_it && starts_with (boundary x) k))
  lex_ltb-limit_at true x prefix_end k hk = ground arith
  lex_ltb-limit_at false x prefix_end k hk =
      let (end, e) = boundary-successor x in
      rw e (lex_ltb-successor (boundary x) end k (boundary-AreBytes x) hk e)

  -- What is between two limits is under the index.
  pub limits-prefix :
      (from_it to_it : Bool) (lo hi : ℤ) (prefix_end k : Bytes)
      → AreBytes k
      → lex_ltb k (limit_at from_it lo prefix_end) ≡ false
      → lex_ltb k (limit_at to_it hi prefix_end) ≡ true
      → starts_with (tag_index_prefix part_id index_id) k ≡ true
  unfolding tag_index_prefix_with_values
  limits-prefix from_it to_it lo hi prefix_end k hk above under =
      let p = tag_index_prefix part_id index_id in
      let more = λ (x : ℤ). starts_with-append p (encode_values (int x ∷ [])) in
      ground (
        arith,
        lex_ltb-limit_at from_it lo prefix_end k hk,
        lex_ltb-limit_at to_it hi prefix_end k hk,
        starts_with-between p (boundary lo) k (boundary hi) (more lo) (more hi),
        starts_with-values part_id index_id (int hi ∷ []) k,
        lex-IsOrder.irrefl k,
        lex-IsOrder.trans k (boundary hi) k,
      )

  -- An entry against a limit, by its value.
  pub entry-limit_at :
      (from_it : Bool) (x : ℤ) (prefix_end : Bytes) (v : IndexValue) (vid : ℤ)
      → IsI64 x
      → Fits plain v
      → AreBytes (tag_index_key part_id index_id (v ∷ []) vid)
      → lex_ltb (tag_index_key part_id index_id (v ∷ []) vid) (limit_at from_it x prefix_end)
        ≡ (below v x || (not from_it && at_bound v x))
  unfolding tag_index_prefix_with_values tag_index_key
  entry-limit_at from_it x prefix_end v vid hx f hk =
      let p = tag_index_prefix part_id index_id in
      let here = encode_values (int x ∷ []) in
      let there = encode_values (v ∷ []) ++ write_i64 vid in
      lex_ltb-limit_at from_it x prefix_end (p ++ there) hk
      ∙ rw
          (
            lex_ltb-same p there here,
            starts_with-same p here there,
            encoded-below x hx v (write_i64 vid) f,
            encoded-at_bound x hx v (write_i64 vid) f,
          )
          refl
