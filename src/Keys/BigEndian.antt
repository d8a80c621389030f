-- ===== src/Keys/BigEndian.antt =====
-- The big-endian writers and readers of the `byteorder` crate that key.rs calls, and the cast
-- between `i64` and `u64`. An `i64` is an integer; `negsuc n` is -(n + 1).
use byoridb.Base.{
  ℕ, zero, suc, ◌+◌, ◌-◌, ◌*◌, ◌/◌, ◌%◌, ◌^◌, ◌<◌, ◌≡◌, ◌⊎◌, inl, inr, refl, sym, ap, ◌∙◌, [], ◌∷◌,
  ◌++◌, length, length-append, ltb, if◌then◌else◌, arith, u64_mod,
}
use native.Mathlib.Decide.{dec_lt}
use byoridb.Raft.Types.{Bytes}

pub data ℤ : Type 0 where
  pos : ℕ → ℤ
  negsuc : ℕ → ℤ

abbrev pub i64_limit : ℕ
i64_limit = 2 ^ 63

-- The values of an `i64`.
abbrev pub IsI64 : ℤ → Type 0
IsI64 (pos n) = n < i64_limit
IsI64 (negsuc n) = n < i64_limit

abbrev pub LtZ : ℤ → ℤ → Type 0
LtZ (pos a) (pos b) = a < b
LtZ (pos a) (negsuc b) = ⊥
LtZ (negsuc a) (pos b) = Unit
LtZ (negsuc a) (negsuc b) = b < a

-- `i as u64`: two's complement.
unfoldable pub as_u64 : ℤ → ℕ
as_u64 (pos n) = n % u64_mod
as_u64 (negsuc n) = u64_mod - 1 - n % u64_mod

-- `u as i64`
unfoldable pub as_i64 : ℕ → ℤ
as_i64 u = if ltb u i64_limit then pos u else negsuc (u64_mod - 1 - u)

pub as_i64-as_u64 : (i : ℤ) → IsI64 i → as_i64 (as_u64 i) ≡ i
unfolding as_i64 as_u64
as_i64-as_u64 (pos n) h = ground arith
as_i64-as_u64 (negsuc n) h = ground arith

pub as_u64-lt : (i : ℤ) → as_u64 i < u64_mod
unfolding as_u64
as_u64-lt (pos n) = omega arith
as_u64-lt (negsuc n) = omega arith

-- The last `k` bytes of a number, the highest first.
unfoldable pub be_bytes : ℕ → ℕ → Bytes
be_bytes zero n = []
be_bytes (suc k) n = be_bytes k (n / 256) ++ (n % 256) ∷ []

read_from : ℕ → Bytes → ℕ
read_from acc [] = acc
read_from acc (b ∷ bs) = read_from (acc * 256 + b) bs

unfoldable pub read_be : Bytes → ℕ
unfolding read_from
read_be bs = read_from 0 bs

abbrev pub write_u32 : ℕ → Bytes
write_u32 = be_bytes 4

abbrev pub write_u64 : ℕ → Bytes
write_u64 = be_bytes 8

abbrev pub write_i64 : ℤ → Bytes
write_i64 i = be_bytes 8 (as_u64 i)

abbrev pub read_i64 : Bytes → ℤ
read_i64 bs = as_i64 (read_be bs)

pub length-be_bytes : (k n : ℕ) → length (be_bytes k n) ≡ k
unfolding be_bytes
length-be_bytes zero n = refl
length-be_bytes (suc k) n =
    omega
      (arith, length-append (be_bytes k (n / 256)) ((n % 256) ∷ []), length-be_bytes k (n / 256))

read_from-snoc :
    (acc : ℕ) (xs : Bytes) (x : ℕ) → read_from acc (xs ++ x ∷ []) ≡ read_from acc xs * 256 + x
unfolding read_from
read_from-snoc acc [] x = refl
read_from-snoc acc (y ∷ ys) x = read_from-snoc (acc * 256 + y) ys x

-- 256 to the power `k`.
abbrev pub capacity : ℕ → ℕ
capacity zero = 1
capacity (suc k) = 256 * capacity k

pub read_be-be_bytes : (k n : ℕ) → n < capacity k → read_be (be_bytes k n) ≡ n
unfolding be_bytes read_be
read_be-be_bytes zero n h = omega arith
read_be-be_bytes (suc k) n h = omega (
  arith,
  read_from-snoc 0 (be_bytes k (n / 256)) (n % 256),
  read_be-be_bytes k (n / 256) (omega arith),
)

pub read_i64-write_i64 : (i : ℤ) → IsI64 i → read_i64 (write_i64 i) ≡ i
read_i64-write_i64 i h =
    rw (read_be-be_bytes 8 (as_u64 i) (omega (arith, as_u64-lt i))) (as_i64-as_u64 i h)

-- The byte order of keys in the store.
abbrev pub LexLt : Bytes → Bytes → Type 0
LexLt [] [] = ⊥
LexLt [] (y ∷ ys) = Unit
LexLt (x ∷ xs) [] = ⊥
LexLt (x ∷ xs) (y ∷ ys) = (x < y) ⊎ ((x ≡ y) × LexLt xs ys)

LexLt-append :
    (xs ys us vs : Bytes) → length xs ≡ length ys → LexLt xs ys → LexLt (xs ++ us) (ys ++ vs)
LexLt-append [] [] us vs e h = absurd h
LexLt-append [] (y ∷ ys) us vs e h = absurd (omega arith)
LexLt-append (x ∷ xs) [] us vs e h = absurd h
LexLt-append (x ∷ xs) (y ∷ ys) us vs e (inl h) = inl h
LexLt-append (x ∷ xs) (y ∷ ys) us vs e (inr (q, h)) =
    inr (q, LexLt-append xs ys us vs (omega arith) h)

pub LexLt-same : (xs us vs : Bytes) → LexLt us vs → LexLt (xs ++ us) (xs ++ vs)
LexLt-same [] us vs h = h
LexLt-same (x ∷ xs) us vs h = inr (refl, LexLt-same xs us vs h)

-- Bytes of one width are in the order of their numbers.
pub be_bytes-LexLt : (k a b : ℕ) → a < b → b < capacity k → LexLt (be_bytes k a) (be_bytes k b)
unfolding be_bytes
be_bytes-LexLt zero a b h c = absurd (omega arith)
be_bytes-LexLt (suc k) a b h c = elim (dec_lt (a / 256) (b / 256)) [
  | yes high ↦
      LexLt-append (be_bytes k (a / 256)) (be_bytes k (b / 256)) ((a % 256) ∷ []) ((b % 256) ∷ [])
        (length-be_bytes k (a / 256) ∙ sym (length-be_bytes k (b / 256)))
        (be_bytes-LexLt k (a / 256) (b / 256) high (omega arith))
  | no low ↦
      let q : a / 256 ≡ b / 256 = omega arith in
      rw q (LexLt-same (be_bytes k (b / 256)) ((a % 256) ∷ []) ((b % 256) ∷ []) (inl (omega arith)))
]

pub be_bytes_injective :
    (k a b : ℕ) → a < capacity k → b < capacity k → be_bytes k a ≡ be_bytes k b → a ≡ b
be_bytes_injective k a b h c e =
    sym (read_be-be_bytes k a h) ∙ ap read_be e ∙ read_be-be_bytes k b c
