-- ===== src/Kv/Versions.antt =====
-- byoridb-kvstore/src/store.rs: the history keys and values, read back and in order.
use mathlib.Core.List.{append_assoc, append-nil}
use mathlib.Core.Path.{ap₂}
use byoridb.Base.{
  ℕ, zero, suc, ◌-◌, ◌/◌, ◌%◌, ◌<◌, ◌≡◌, ◌≢◌, refl, sym, subst, ◌∙◌, true, false, [], ◌∷◌, ◌++◌,
  some, length, length-append, drop, take_prefix, drop_prefix, ltb, if◌then◌else◌, arith, All,
  u64_mod,
}
use byoridb.Base.Lex.{lex_ltb, starts_with}
use byoridb.Raft.Types.{Bytes}
use byoridb.Keys.BigEndian.{
  ℤ, pos, negsuc, IsI64, as_u64, as_i64-as_u64, as_u64-lt, be_bytes, length-be_bytes,
  read_be-be_bytes, write_i64, read_i64-write_i64, capacity,
}
use byoridb.Keys.Values.{flip_sign}
use byoridb.Keys.Values.RoundTrip.{flip_sign_twice, flip_sign-lt}
use byoridb.Kv.{
  VersionRecord, Entry, lt_i64, desc_bits, desc_i64, undesc_i64, history_prefix, history_key,
  parse_history_key_times, encode_history_value, decode_history_value,
}

-- No byte is zero, as in the entity keys, which are text.
abbrev pub NoZero : Bytes → Type 0
NoZero = All (λ b. b ≢ 0)

pub record IsTimely (v : VersionRecord) : Type 0 where
  pub from : IsI64 v.valid_from
  pub to : IsI64 v.valid_to
  pub at : IsI64 v.tx

-- What `put_version` stores.
abbrev pub entry_of : Bytes → VersionRecord → Entry
entry_of ek v = (history_key ek v.valid_from v.tx, encode_history_value v.valid_to v.value)

desc_bits-lt : (i : ℤ) → desc_bits i < u64_mod
unfolding desc_bits
desc_bits-lt i = omega (arith, flip_sign-lt (as_u64 i) (as_u64-lt i))

length-desc_i64 : (i : ℤ) → length (desc_i64 i) ≡ 8
unfolding desc_i64
length-desc_i64 i = length-be_bytes 8 (desc_bits i)

pub undesc_i64-desc_i64 : (i : ℤ) → IsI64 i → undesc_i64 (desc_i64 i) ≡ i
unfolding undesc_i64 desc_i64
undesc_i64-desc_i64 i h =
    let r = read_be-be_bytes 8 (desc_bits i) (omega (arith, desc_bits-lt i)) in
    let back : u64_mod - 1 - desc_bits i ≡ flip_sign (as_u64 i) =
      unfold desc_bits in omega (arith, flip_sign-lt (as_u64 i) (as_u64-lt i)) in
    rw (r, back, flip_sign_twice (as_u64 i) (as_u64-lt i)) (as_i64-as_u64 i h)

length-times : (vf tx : ℤ) → length (desc_i64 vf ++ desc_i64 tx) ≡ 16
length-times vf tx =
    omega (arith, length-append (desc_i64 vf) (desc_i64 tx), length-desc_i64 vf, length-desc_i64 tx)

pub parse-history_key :
    (ek : Bytes) (vf tx : ℤ)
    → IsI64 vf
    → IsI64 tx
    → parse_history_key_times (history_key ek vf tx) ≡ some (vf, tx)
unfolding history_key parse_history_key_times
parse-history_key ek vf tx h k =
    let p = history_prefix ek in
    let ds = desc_i64 vf ++ desc_i64 tx in
    let total = length-append p ds in
    let n16 = length-times vf tx in
    let long : ltb (length (p ++ ds)) 16 ≡ false = ground (arith, total, n16) in
    let d16 : drop (length (p ++ ds) - 16) (p ++ ds) ≡ ds =
      drop_prefix (length (p ++ ds) - 16) p ds (omega (arith, total, n16)) in
    let d8 : drop (length (p ++ ds) - 8) (p ++ ds) ≡ desc_i64 tx =
      subst (λ key. drop (length (p ++ ds) - 8) key ≡ desc_i64 tx)
        (append_assoc p (desc_i64 vf) (desc_i64 tx))
        (drop_prefix (length (p ++ ds) - 8) (p ++ desc_i64 vf) (desc_i64 tx)
          (omega (arith, total, n16, length-append p (desc_i64 vf), length-desc_i64 vf))) in
    rw
      (
        long,
        d16,
        d8,
        take_prefix 8 (desc_i64 vf) (desc_i64 tx) (length-desc_i64 vf),
        undesc_i64-desc_i64 vf h,
        undesc_i64-desc_i64 tx k,
      )
      refl

pub decode-history_value :
    (vt : ℤ) (payload : Bytes)
    → IsI64 vt
    → decode_history_value (encode_history_value vt payload) ≡ some (vt, payload)
unfolding encode_history_value decode_history_value
decode-history_value vt payload h =
    let n8 = length-be_bytes 8 (as_u64 vt) in
    let long : ltb (length (write_i64 vt ++ payload)) 8 ≡ false =
      ground (arith, length-append (write_i64 vt) payload, n8) in
    rw
      (
        long,
        take_prefix 8 (write_i64 vt) payload n8,
        drop_prefix 8 (write_i64 vt) payload n8,
        read_i64-write_i64 vt h,
      )
      refl

-- A key of one entity does not start with the prefix of another.
pub prefix_apart :
    (ek ek' : Bytes) (vf tx : ℤ)
    → NoZero ek
    → NoZero ek'
    → starts_with (history_prefix ek) (history_key ek' vf tx) ≡ true
    → ek ≡ ek'
unfolding history_prefix history_key starts_with
prefix_apart [] [] vf tx z z' s = refl
prefix_apart [] (c ∷ cs) vf tx z z' s = ground (arith, z'.0)
prefix_apart (b ∷ bs) [] vf tx z z' s = ground (arith, z.0)
prefix_apart (b ∷ bs) (c ∷ cs) vf tx z z' s = ground (arith, prefix_apart bs cs vf tx z.1 z'.1)

pub lex_ltb-same : (p a b : Bytes) → lex_ltb (p ++ a) (p ++ b) ≡ lex_ltb a b
unfolding lex_ltb
lex_ltb-same [] a b = refl
lex_ltb-same (x ∷ p) a b = ground (arith, lex_ltb-same p a b)

-- Numbers of one width, the highest byte first, decide before what follows.
pub lex_ltb-be_bytes :
    (k a b : ℕ) (us vs : Bytes)
    → a < capacity k
    → b < capacity k
    → lex_ltb (be_bytes k a ++ us) (be_bytes k b ++ vs)
      ≡ (if ltb a b then true else if ltb b a then false else lex_ltb us vs)
unfolding be_bytes
lex_ltb-be_bytes zero a b us vs h c = ground arith
lex_ltb-be_bytes (suc k) a b us vs h c =
    rw
      (
        append_assoc (be_bytes k (a / 256)) ((a % 256) ∷ []) us,
        append_assoc (be_bytes k (b / 256)) ((b % 256) ∷ []) vs,
      )
      (lex_ltb-be_bytes k (a / 256) (b / 256) ((a % 256) ∷ us) ((b % 256) ∷ vs) (omega arith)
          (omega arith)
        ∙ unfold lex_ltb in ground arith)

pub lt_i64-desc_bits : (i j : ℤ) → IsI64 i → IsI64 j → ltb (desc_bits i) (desc_bits j) ≡ lt_i64 j i
unfolding lt_i64 desc_bits flip_sign as_u64
lt_i64-desc_bits (pos a) (pos b) h k = ground arith
lt_i64-desc_bits (pos a) (negsuc b) h k = ground arith
lt_i64-desc_bits (negsuc a) (pos b) h k = ground arith
lt_i64-desc_bits (negsuc a) (negsuc b) h k = ground arith

desc_i64-order : (b d : ℤ) → IsI64 b → IsI64 d → lex_ltb (desc_i64 b) (desc_i64 d) ≡ lt_i64 d b
unfolding desc_i64
desc_i64-order b d hb hd =
    let e =
      lex_ltb-be_bytes 8 (desc_bits b) (desc_bits d) [] [] (omega (arith, desc_bits-lt b))
        (omega (arith, desc_bits-lt d)) in
    sym (ap₂ lex_ltb (append-nil (desc_i64 b)) (append-nil (desc_i64 d)))
    ∙ (e ∙ unfold lex_ltb in ground (arith, lt_i64-desc_bits b d hb hd))

-- Later versions come first: by the start of their validity, then by their transaction.
pub history_key-order :
    (ek : Bytes) (a b c d : ℤ)
    → IsI64 a
    → IsI64 b
    → IsI64 c
    → IsI64 d
    → lex_ltb (history_key ek a b) (history_key ek c d)
      ≡ (if lt_i64 c a then true else if lt_i64 a c then false else lt_i64 d b)
unfolding history_key desc_i64
history_key-order ek a b c d ha hb hc hd =
    lex_ltb-same (history_prefix ek) (desc_i64 a ++ desc_i64 b) (desc_i64 c ++ desc_i64 d)
    ∙ (lex_ltb-be_bytes 8 (desc_bits a) (desc_bits c) (desc_i64 b) (desc_i64 d)
          (omega (arith, desc_bits-lt a)) (omega (arith, desc_bits-lt c))
        ∙ rw (lt_i64-desc_bits a c ha hc, lt_i64-desc_bits c a hc ha, desc_i64-order b d hb hd)
            refl)
