-- ===== src/Keys/Values.antt =====
-- byoridb-storage/src/key.rs, `IndexValue`: the values in index keys. A `String` is its bytes, a
-- float its bit pattern (`to_bits`). `u ^ (1 << 63)` on a `u64` is the addition or removal of the
-- top bit, and `!u` the distance to the greatest `u64`. `String::from_utf8_lossy` is a parameter.
pub mod RoundTrip
pub mod Order
use byoridb.Base.{
  ℕ, ◌+◌, ◌-◌, Bool, true, false, not, ◌&&◌, List, [], ◌∷◌, ◌++◌, Option, none, some, length, take,
  drop, min, ltb, leb, ◌==◌, if◌then◌else◌, u64_mod,
}
use byoridb.Raft.Types.{Bytes}
use byoridb.Keys.BigEndian.{ℤ, i64_limit, as_u64, as_i64, write_u64, read_be}

pub data IndexValue : Type 0 where
  null : IndexValue
  bool : Bool → IndexValue
  int : ℤ → IndexValue
  float : ℕ → IndexValue
  string : Bytes → IndexValue

unfoldable pub flip_sign : ℕ → ℕ
flip_sign u = if ltb u i64_limit then u + i64_limit else u - i64_limit

unfoldable pub encode_float : ℕ → ℕ
unfolding flip_sign
encode_float bits = if leb i64_limit bits then u64_mod - 1 - bits else flip_sign bits

unfoldable pub decode_float : ℕ → ℕ
unfolding flip_sign
decode_float encoded = if leb i64_limit encoded then flip_sign encoded else u64_mod - 1 - encoded

unfoldable pub encode : IndexValue → Bytes
unfolding encode_float
encode null = 0x00 ∷ []
encode (bool b) = 0x01 ∷ (if b then 1 else 0) ∷ []
encode (int i) = 0x02 ∷ write_u64 (flip_sign (as_u64 i))
encode (float bits) = 0x03 ∷ write_u64 (encode_float bits)
encode (string s) = 0x04 ∷ min (length s) 255 ∷ take (min (length s) 255) s

unfoldable pub encoded_len : IndexValue → ℕ
encoded_len null = 1
encoded_len (bool b) = 2
encoded_len (int i) = 9
encoded_len (float bits) = 9
encoded_len (string s) = 2 + min (length s) 255

decode_bool : Bytes → Option (IndexValue × ℕ)
decode_bool [] = none
decode_bool (b ∷ rest) = some (bool (not (b == 0)), 2)

module _ (from_utf8_lossy : Bytes → Bytes) where
  decode_string : Bytes → Option (IndexValue × ℕ)
  decode_string [] = none
  decode_string (len ∷ rest) =
      if leb len (length rest)
      then some (string (from_utf8_lossy (take len rest)), 2 + len)
      else none

  unfoldable pub decode : Bytes → Option (IndexValue × ℕ)
  unfolding decode_bool decode_string
  decode [] = none
  decode (tag ∷ rest) =
      if tag == 0x00
      then some (null, 1)
      else if tag == 0x01
      then decode_bool rest
      else if tag == 0x02
      then (if leb 8 (length rest)
          then some (int (as_i64 (flip_sign (read_be (take 8 rest)))), 9)
          else none)
      else if tag == 0x03
      then (if leb 8 (length rest)
          then some (float (decode_float (read_be (take 8 rest))), 9)
          else none)
      else if tag == 0x04
      then decode_string rest
      else none
