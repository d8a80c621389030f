-- ===== src/Keys/Layout/Apart.antt =====
-- byoridb-storage/src/key.rs: which keys are equal, and which keys a scan by a prefix meets.
use mathlib.Core.Path.{subst, ap₂}
use mathlib.Core.List.{append_assoc}
use byoridb.Base.{
  ℕ, ◌+◌, ◌*◌, ◌^◌, ◌<◌, ◌≡◌, refl, sym, ap, ◌∙◌, List, [], ◌∷◌, ◌++◌, some_inj, All, length, arith,
}
use byoridb.Raft.Types.{Bytes}
use byoridb.Keys.BigEndian.{
  ℤ, pos, IsI64, as_u64, as_i64, as_i64-as_u64, as_u64-lt, be_bytes, be_bytes_injective, write_u32,
  write_i64, length-be_bytes,
}
use byoridb.Keys.Values.{IndexValue, encode, decode}
use byoridb.Keys.Values.RoundTrip.{Fits, decode-encode}
use byoridb.Keys.Layout.{
  vertex_key, edge_key, index_prefix, tag_index_prefix, encode_values, tag_index_key,
  tag_index_prefix_with_values, KeyType, tag_index, code,
}

split {ℓ} :
    {A : Type ℓ} (xs ys us vs : List A)
    → length xs ≡ length ys
    → xs ++ us ≡ ys ++ vs
    → (xs ≡ ys) × (us ≡ vs)
split [] [] us vs n e = (refl, e)
split [] (y ∷ ys) us vs n e = absurd (omega arith)
split (x ∷ xs) [] us vs n e = absurd (omega arith)
split (x ∷ xs) (y ∷ ys) us vs n e =
    let t : xs ++ us ≡ ys ++ vs = cc in
    let h : x ≡ y = cc in let r = split xs ys us vs (omega arith) t in (ap₂ ◌∷◌ h r.0, r.1)

split_be :
    (k a b : ℕ) (us vs : Bytes)
    → be_bytes k a ++ us ≡ be_bytes k b ++ vs
    → (be_bytes k a ≡ be_bytes k b) × (us ≡ vs)
split_be k a b us vs e =
    split (be_bytes k a) (be_bytes k b) us vs (length-be_bytes k a ∙ sym (length-be_bytes k b)) e

u32_eq : (a b : ℕ) → a < 2 ^ 32 → b < 2 ^ 32 → write_u32 a ≡ write_u32 b → a ≡ b
u32_eq a b h k e = be_bytes_injective 4 a b (omega arith) (omega arith) e

i64_eq : (a b : ℤ) → IsI64 a → IsI64 b → write_i64 a ≡ write_i64 b → a ≡ b
i64_eq a b h k e =
    sym (as_i64-as_u64 a h)
    ∙ ap as_i64 (
        be_bytes_injective 8 (as_u64 a) (as_u64 b) (omega (arith, as_u64-lt a))
          (omega (arith, as_u64-lt b)) e)
    ∙ as_i64-as_u64 b k

cons_tail {ℓ} : {A : Type ℓ} (x y : A) (xs ys : List A) → x ∷ xs ≡ y ∷ ys → xs ≡ ys
cons_tail x y xs ys e = cc

-- Two vertices with 32-bit partitions and tags, and 64-bit ids, that have the same key agree in
-- partition, id and tag.
pub vertex_key_injective :
    (p q : ℕ) (a b : ℤ) (s t : ℕ)
    → p < 2 ^ 32
    → q < 2 ^ 32
    → IsI64 a
    → IsI64 b
    → s < 2 ^ 32
    → t < 2 ^ 32
    → vertex_key p a s ≡ vertex_key q b t
    → (p ≡ q) × (a ≡ b) × (s ≡ t)
unfolding vertex_key
vertex_key_injective p q a b s t hp hq ha hb hs ht e =
    let x = split_be 4 p q _ _ e in
    let y = split_be 8 (as_u64 a) (as_u64 b) _ _ x.1 in
    (u32_eq p q hp hq x.0, i64_eq a b ha hb y.0, u32_eq s t hs ht (cons_tail 1 1 _ _ y.1))

-- Two edges with 32-bit partitions and types, and 64-bit ends and ranks, that have the same key
-- agree in partition, ends, type and rank.
pub edge_key_injective :
    (p q : ℕ) (a b : ℤ) (s t : ℕ) (r u c d : ℤ)
    → p < 2 ^ 32
    → q < 2 ^ 32
    → IsI64 a
    → IsI64 b
    → s < 2 ^ 32
    → t < 2 ^ 32
    → IsI64 r
    → IsI64 u
    → IsI64 c
    → IsI64 d
    → edge_key p a s r c ≡ edge_key q b t u d
    → (p ≡ q) × (a ≡ b) × (s ≡ t) × (r ≡ u) × (c ≡ d)
unfolding edge_key
edge_key_injective p q a b s t r u c d hp hq ha hb hs ht hr hu hc hd e =
    let x = split_be 4 p q _ _ e in
    let y = split_be 8 (as_u64 a) (as_u64 b) _ _ x.1 in
    let z = split_be 4 s t _ _ (cons_tail 2 2 _ _ y.1) in
    let w = split_be 8 (as_u64 r) (as_u64 u) _ _ z.1 in
    (
      u32_eq p q hp hq x.0,
      i64_eq a b ha hb y.0,
      u32_eq s t hs ht z.0,
      i64_eq r u hr hu w.0,
      i64_eq c d hc hd w.1,
    )

-- Values that are stored whole are told apart by their bytes, whatever follows.
encode_split :
    (v w : IndexValue) (r s : Bytes)
    → Fits (λ x. x) v
    → Fits (λ x. x) w
    → encode v ++ r ≡ encode w ++ s
    → (v ≡ w) × (r ≡ s)
encode_split v w r s h k e =
    let d =
      sym (decode-encode (λ x. x) v r h) ∙ ap (decode (λ x. x)) e ∙ decode-encode (λ x. x) w s k in
    let q : v ≡ w = ap (λ (t : IndexValue × ℕ). t.0) (some_inj d) in
    (q, (split (encode w) (encode w) r s refl (subst (λ u. encode u ++ r ≡ encode w ++ s) q e)).1)

values_split :
    (vs ws : List IndexValue) (r s : Bytes)
    → length vs ≡ length ws
    → All (Fits (λ x. x)) vs
    → All (Fits (λ x. x)) ws
    → encode_values vs ++ r ≡ encode_values ws ++ s
    → (vs ≡ ws) × (r ≡ s)
unfolding encode_values
values_split [] [] r s n h k e = (refl, e)
values_split [] (w ∷ ws) r s n h k e = absurd (omega arith)
values_split (v ∷ vs) [] r s n h k e = absurd (omega arith)
values_split (v ∷ vs) (w ∷ ws) r s n h k e =
    let e' =
      sym (append_assoc (encode v) (encode_values vs) r)
      ∙ e
      ∙ append_assoc (encode w) (encode_values ws) s in
    let x = encode_split v w (encode_values vs ++ r) (encode_values ws ++ s) h.0 k.0 e' in
    let y = values_split vs ws r s (omega arith) h.1 k.1 x.1 in (ap₂ ◌∷◌ x.0 y.0, y.1)

index_split :
    (t : KeyType) (p q i j : ℕ) (us vs : Bytes)
    → p < 2 ^ 32
    → q < 2 ^ 32
    → i < 2 ^ 32
    → j < 2 ^ 32
    → index_prefix t p i ++ us ≡ index_prefix t q j ++ vs
    → (p ≡ q) × (i ≡ j) × (us ≡ vs)
unfolding index_prefix
index_split t p q i j us vs hp hq hi hj e =
    let e' =
      sym (append_assoc (be_bytes 4 p) (code t ∷ be_bytes 4 i) us)
      ∙ e
      ∙ append_assoc (be_bytes 4 q) (code t ∷ be_bytes 4 j) vs in
    let x = split_be 4 p q _ _ e' in
    let y = split_be 4 i j _ _ (cons_tail (code t) (code t) _ _ x.1) in
    (u32_eq p q hp hq x.0, u32_eq i j hi hj y.0, y.1)

-- With 32-bit partition and index ids, and equally many values that the key holds whole on both
-- sides, a tag index key that starts with the scan prefix of a partition, an index and values is
-- an entry of that partition, index and values, and what follows the prefix is its vertex id.
pub scan_by_values_exact :
    (p q i j : ℕ) (vs ws : List IndexValue) (vid : ℤ) (rest : Bytes)
    → p < 2 ^ 32
    → q < 2 ^ 32
    → i < 2 ^ 32
    → j < 2 ^ 32
    → length vs ≡ length ws
    → All (Fits (λ x. x)) vs
    → All (Fits (λ x. x)) ws
    → tag_index_key p i vs vid ≡ tag_index_prefix_with_values q j ws ++ rest
    → (p ≡ q) × (i ≡ j) × (vs ≡ ws) × (write_i64 vid ≡ rest)
unfolding tag_index_key tag_index_prefix_with_values tag_index_prefix
scan_by_values_exact p q i j vs ws vid rest hp hq hi hj n h k e =
    let e' = e ∙ append_assoc (index_prefix tag_index q j) (encode_values ws) rest in
    let x = index_split tag_index p q i j _ _ hp hq hi hj e' in
    let y = values_split vs ws (write_i64 vid) rest n h k x.2 in (x.0, x.1, y.0, y.1)

vid_bytes :
    (i x : ℕ)
    → i < 2 ^ 32
    → x < 2 ^ 24
    → write_i64 (pos (4 * 2 ^ 56 + i * 2 ^ 24 + x)) ≡ 4 ∷ (be_bytes 4 i ++ be_bytes 3 x)
unfolding be_bytes as_u64
vid_bytes i x h k = ground arith

-- With an index id of 32 bits, the key of a vertex whose id has 4 in its highest byte and the
-- index id in the next four bytes starts with the scan prefix of that tag index.
pub vertex_key_in_index_range :
    (p i x t : ℕ)
    → i < 2 ^ 32
    → x < 2 ^ 24
    → vertex_key p (pos (4 * 2 ^ 56 + i * 2 ^ 24 + x)) t
      ≡ tag_index_prefix p i ++ (be_bytes 3 x ++ (1 ∷ write_u32 t))
unfolding vertex_key tag_index_prefix
vertex_key_in_index_range p i x t h k = rw (
  vid_bytes i x h k,
  append_assoc (be_bytes 4 p) (4 ∷ be_bytes 4 i) (be_bytes 3 x ++ (1 ∷ write_u32 t)),
  append_assoc (be_bytes 4 i) (be_bytes 3 x) (1 ∷ write_u32 t),
)
