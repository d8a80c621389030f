-- ===== src/Keys/Values/RoundTrip.antt =====
-- byoridb-storage/src/key.rs, `IndexValue::encode` and `IndexValue::decode`.
use byoridb.Base.{
  take-append, take_all, take_prefix, ℕ, ◌≤◌, ◌<◌, ◌≡◌, refl, true, false, ◌++◌, some, length,
  length-append, length-take, take, min, leb, arith, u64_mod,
}
use byoridb.Raft.Types.{Bytes}
use byoridb.Keys.BigEndian.{
  IsI64, as_u64, as_i64-as_u64, as_u64-lt, be_bytes, read_be, read_be-be_bytes, length-be_bytes,
}
use byoridb.Keys.Values.{
  IndexValue, null, bool, int, float, string, flip_sign, encode_float, decode_float, encode,
  encoded_len, decode,
}

pub flip_sign_twice : (u : ℕ) → u < u64_mod → flip_sign (flip_sign u) ≡ u
unfolding flip_sign
flip_sign_twice u h = ground arith

pub flip_sign-lt : (u : ℕ) → u < u64_mod → flip_sign u < u64_mod
unfolding flip_sign
flip_sign-lt u h = ground arith

pub decode_float-encode_float : (u : ℕ) → u < u64_mod → decode_float (encode_float u) ≡ u
unfolding decode_float encode_float
decode_float-encode_float u h = ground arith

pub encode_float-lt : (u : ℕ) → u < u64_mod → encode_float u < u64_mod
unfolding encode_float
encode_float-lt u h = ground arith

-- The values that an index key holds whole.
abbrev pub Fits : (Bytes → Bytes) → IndexValue → Type 0
Fits lossy null = Unit {0}
Fits lossy (bool b) = Unit {0}
Fits lossy (int i) = IsI64 i
Fits lossy (float bits) = bits < u64_mod
Fits lossy (string s) = (length s ≤ 255) × (lossy s ≡ s)

pub length-encode : (v : IndexValue) → length (encode v) ≡ encoded_len v
unfolding encode encoded_len
length-encode null = refl
length-encode (bool b) = refl
length-encode (int i) = omega (arith, length-be_bytes 8 (flip_sign (as_u64 i)))
length-encode (float bits) = omega (arith, length-be_bytes 8 (encode_float bits))
length-encode (string s) = omega (arith, length-take (min (length s) 255) s)

read_back : (u : ℕ) (rest : Bytes) → u < u64_mod → read_be (take 8 (be_bytes 8 u ++ rest)) ≡ u
read_back u rest h =
    rw (take_prefix 8 (be_bytes 8 u) rest (length-be_bytes 8 u))
      (read_be-be_bytes 8 u (omega arith))

room : (u : ℕ) (rest : Bytes) → leb 8 (length (be_bytes 8 u ++ rest)) ≡ true
room u rest = ground (arith, length-append (be_bytes 8 u) rest, length-be_bytes 8 u)

-- Decoding an encoded index value that an index key holds whole gives back that value and its
-- encoded length, whatever bytes follow.
pub decode-encode :
    (lossy : Bytes → Bytes) (v : IndexValue) (rest : Bytes)
    → Fits lossy v
    → decode lossy (encode v ++ rest) ≡ some (v, encoded_len v)
unfolding decode encode encoded_len
decode-encode lossy null rest h = refl
decode-encode lossy (bool true) rest h = refl
decode-encode lossy (bool false) rest h = refl
decode-encode lossy (int i) rest h =
    let u = flip_sign (as_u64 i) in
    rw (
      room u rest,
      read_back u rest (flip_sign-lt (as_u64 i) (as_u64-lt i)),
      flip_sign_twice (as_u64 i) (as_u64-lt i),
      as_i64-as_u64 i h,
    )
decode-encode lossy (float bits) rest h =
    let u = encode_float bits in
    rw (room u rest, read_back u rest (encode_float-lt bits h), decode_float-encode_float bits h)
decode-encode lossy (string s) rest h =
    let q : min (length s) 255 ≡ length s = omega arith in
    let t : leb (length s) (length (s ++ rest)) ≡ true = ground (arith, length-append s rest) in
    rw (q, take_all (length s) s (omega arith), t, take-append s rest, h.1)
