-- ===== src/Keys/Examples.antt =====
-- The theorems on byoridb-storage/src/key.rs at keys that meet their hypotheses.
use byoridb.Base.{ℕ, ◌+◌, ◌*◌, ◌^◌, ◌≡◌, refl, true, List, [], ◌∷◌, ◌++◌, some, arith}
use byoridb.Keys.BigEndian.{ℤ, pos, negsuc, be_bytes, write_u32, write_i64}
use byoridb.Keys.Values.{IndexValue, bool, string, encode, encoded_len, decode}
use byoridb.Keys.Values.RoundTrip.{decode-encode}
use byoridb.Keys.Layout.{
  vertex_key, tag_index_prefix, tag_index_key, tag_index_prefix_with_values, encode_values,
}
use byoridb.Keys.Layout.Apart.{scan_by_values_exact, vertex_key_in_index_range}

abbrev minus_five : ℤ
minus_five = negsuc 4

decode-encode_example :
    decode (λ s. s) (encode (string (104 ∷ 105 ∷ [])) ++ 7 ∷ [])
    ≡ some (string (104 ∷ 105 ∷ []), encoded_len (string (104 ∷ 105 ∷ [])))
decode-encode_example =
    decode-encode (λ s. s) (string (104 ∷ 105 ∷ [])) (7 ∷ []) (omega arith, refl)

abbrev indexed_values : List IndexValue
indexed_values = string (104 ∷ []) ∷ bool true ∷ []

found :
    tag_index_key 1 100 indexed_values minus_five
    ≡ tag_index_prefix_with_values 1 100 indexed_values ++ write_i64 minus_five
unfolding tag_index_key tag_index_prefix_with_values tag_index_prefix encode_values encode be_bytes
found = refl

scan_by_values_example :
    (◌≡◌ {A = ℕ} 1 1)
    × (◌≡◌ {A = ℕ} 100 100)
    × (indexed_values ≡ indexed_values)
    × (write_i64 minus_five ≡ write_i64 minus_five)
scan_by_values_example =
    scan_by_values_exact 1 1 100 100 indexed_values indexed_values minus_five (write_i64 minus_five)
      (omega arith) (omega arith) (omega arith) (omega arith) refl ((omega arith, refl), (tt, tt))
      ((omega arith, refl), (tt, tt)) found

vertex_key_in_index_range_example :
    vertex_key 1 (pos (4 * 2 ^ 56 + 100 * 2 ^ 24 + 9)) 2
    ≡ tag_index_prefix 1 100 ++ (be_bytes 3 9 ++ (1 ∷ write_u32 2))
vertex_key_in_index_range_example = vertex_key_in_index_range 1 100 9 2 (omega arith) (omega arith)
