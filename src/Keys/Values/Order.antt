-- ===== src/Keys/Values/Order.antt =====
-- byoridb-storage/src/key.rs, `IndexValue::encode`: the byte order of encoded values.
use byoridb.Base.{
  take_all, ℕ, ◌≤◌, ◌<◌, ◌≡◌, ◌⊎◌, ◌↔◌, inl, inr, ◌∷◌, length, min, arith, u64_mod, refl,
}
use byoridb.Raft.Types.{Bytes}
use byoridb.Keys.BigEndian.{
  ℤ, pos, negsuc, IsI64, LtZ, LexLt, i64_limit, as_u64, as_u64-lt, be_bytes-LexLt,
}
use byoridb.Keys.Values.{int, float, string, flip_sign, encode_float, encode}
use byoridb.Keys.Values.RoundTrip.{flip_sign-lt, encode_float-lt}

flip_sign_mono :
    (i j : ℤ) → IsI64 i → IsI64 j → LtZ i j → flip_sign (as_u64 i) < flip_sign (as_u64 j)
unfolding flip_sign as_u64
flip_sign_mono (pos a) (pos b) h k lt = ground arith
flip_sign_mono (pos a) (negsuc b) h k lt = absurd lt
flip_sign_mono (negsuc a) (pos b) h k lt = ground arith
flip_sign_mono (negsuc a) (negsuc b) h k lt = ground arith

-- Of two 64-bit integers the smaller has the encoding that is smaller byte by byte.
pub encode_int-LexLt :
    (i j : ℤ) → IsI64 i → IsI64 j → LtZ i j → LexLt (encode (int i)) (encode (int j))
unfolding encode
encode_int-LexLt i j h k lt = inr (
  refl,
  be_bytes-LexLt 8 (flip_sign (as_u64 i)) (flip_sign (as_u64 j)) (flip_sign_mono i j h k lt)
      (omega (arith, flip_sign-lt (as_u64 j) (as_u64-lt j))),
)

-- The total order of IEEE 754 on bit patterns: sign and magnitude.
abbrev pub FloatLt : ℕ → ℕ → Type 0
FloatLt a b =
    ((a < i64_limit) × (b < i64_limit) × (a < b))
    ⊎ ((i64_limit ≤ a) × (b < i64_limit))
    ⊎ ((i64_limit ≤ a) × (i64_limit ≤ b) × (b < a))

encode_float_mono :
    (a b : ℕ) → a < u64_mod → b < u64_mod → FloatLt a b → encode_float a < encode_float b
unfolding encode_float
encode_float_mono a b h k lt = ground arith

-- Of two 64-bit floats the one that is smaller in the total order of IEEE 754 has the encoding
-- that is smaller byte by byte.
pub encode_float-LexLt :
    (a b : ℕ)
    → a < u64_mod
    → b < u64_mod
    → FloatLt a b
    → LexLt (encode (float a)) (encode (float b))
unfolding encode
encode_float-LexLt a b h k lt = inr (
  refl,
  be_bytes-LexLt 8 (encode_float a) (encode_float b) (encode_float_mono a b h k lt)
      (omega (arith, encode_float-lt b k)),
)

string_order :
    (a b : ℕ) (s t : Bytes) → LexLt (0x04 ∷ a ∷ s) (0x04 ∷ b ∷ t) → (a < b) ⊎ ((a ≡ b) × LexLt s t)
string_order a b s t (inl x) = absurd (omega arith)
string_order a b s t (inr (e, o)) = o

-- Of two strings of at most 255 bytes the encoding of the first is smaller byte by byte exactly
-- when it is the shorter, or both are equally long and it is smaller byte by byte.
pub encode_string-LexLt :
    (s t : Bytes)
    → length s ≤ 255
    → length t ≤ 255
    → LexLt (encode (string s)) (encode (string t))
      ↔ ((length s < length t) ⊎ ((length s ≡ length t) × LexLt s t))
unfolding encode
encode_string-LexLt s t h k =
    let p : min (length s) 255 ≡ length s = omega arith in
    let q : min (length t) 255 ≡ length t = omega arith in
    rw (p, q, take_all (length s) s (omega arith), take_all (length t) t (omega arith))
      ((λ o. string_order (length s) (length t) s t o), (λ o. inr (refl, o)))
