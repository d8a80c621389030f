-- ===== src/Strategy/Bounds.antt =====
-- byoridb-common/src/partition.rs: the partition of a vertex is one of the space's, and a range strategy's is
-- the one whose bounds hold the vertex.
use byoridb.Base.{
  ℕ, suc, ◌+◌, ◌%◌, ◌^◌, ◌≤◌, ◌<◌, ◌≡◌, refl, true, List, [], ◌∷◌, length, if◌then◌else◌, arith,
}
use byoridb.Keys.BigEndian.{ℤ}
use byoridb.Kv.{lt_i64}
use byoridb.Hash as Hash
use byoridb.Strategy.{
  PartitionStrategy, range, hash, modulo, vid_abs, range_partition, compute_partition, valid,
  check_increasing, validate,
}

lt_i64_trans : (a b c : ℤ) → lt_i64 a b ≡ true → lt_i64 b c ≡ true → lt_i64 a c ≡ true
unfolding lt_i64
lt_i64_trans (ℤ.pos a) (ℤ.pos b) (ℤ.pos c) h k = ground arith
lt_i64_trans (ℤ.pos a) (ℤ.pos b) (ℤ.negsuc c) h k = ground arith
lt_i64_trans (ℤ.pos a) (ℤ.negsuc b) c h k = ground arith
lt_i64_trans (ℤ.negsuc a) (ℤ.pos b) (ℤ.pos c) h k = ground arith
lt_i64_trans (ℤ.negsuc a) (ℤ.pos b) (ℤ.negsuc c) h k = ground arith
lt_i64_trans (ℤ.negsuc a) (ℤ.negsuc b) (ℤ.pos c) h k = ground arith
lt_i64_trans (ℤ.negsuc a) (ℤ.negsuc b) (ℤ.negsuc c) h k = ground arith

range_partition-bounds :
    (vid : ℤ) (i : ℕ) (bs : List ℤ)
    → i + length bs + 1 < 2 ^ 32
    → (i + 1 ≤ range_partition vid i bs) × (range_partition vid i bs ≤ i + length bs + 1)
unfolding range_partition
range_partition-bounds vid i [] h = omega arith
range_partition-bounds vid i (b ∷ bs) h =
    ground (arith, range_partition-bounds vid (suc i) bs (omega arith))

remainder-bounds :
    (x n : ℕ)
    → 0 < n
    → n < 2 ^ 32
    → (1 ≤ ((x % n) % 2 ^ 32 + 1) % 2 ^ 32) × (((x % n) % 2 ^ 32 + 1) % 2 ^ 32 ≤ n)
remainder-bounds x n h k = ground arith

-- For a strategy that the validation accepts for fewer than 2^32 partitions, the partition of
-- every vertex lies from 1 to their number.
pub compute_partition-bounds :
    (strategy : PartitionStrategy) (vid : ℤ) (n : ℕ)
    → validate strategy n ≡ valid
    → n < 2 ^ 32
    → (1 ≤ compute_partition strategy vid n) × (compute_partition strategy vid n ≤ n)
unfolding compute_partition Hash.compute_partition validate
compute_partition-bounds hash vid n h k = ground (arith, remainder-bounds (Hash.hash_vid vid) n)
compute_partition-bounds (range bs) vid n h k = ground (arith, range_partition-bounds vid 0 bs)
compute_partition-bounds modulo vid n h k = ground (arith, remainder-bounds (vid_abs vid) n)

-- The boundaries that are not above a vertex.
abbrev pub passed : ℤ → List ℤ → ℕ
passed vid [] = 0
passed vid (b ∷ bs) = let rest = passed vid bs in if lt_i64 vid b then rest else suc rest

above :
    (vid b : ℤ) (bs : List ℤ)
    → check_increasing (b ∷ bs) ≡ valid
    → lt_i64 vid b ≡ true
    → passed vid bs ≡ 0
unfolding check_increasing
above vid b [] h k = refl
above vid b (c ∷ bs) h k = ground (arith, above vid c bs, lt_i64_trans vid b c)

range_partition-passed :
    (vid : ℤ) (i : ℕ) (bs : List ℤ)
    → check_increasing bs ≡ valid
    → i + length bs + 1 < 2 ^ 32
    → range_partition vid i bs ≡ i + passed vid bs + 1
unfolding range_partition check_increasing
range_partition-passed vid i [] h k = omega arith
range_partition-passed vid i (b ∷ []) h k = ground arith
range_partition-passed vid i (b ∷ c ∷ bs) h k =
    ground (arith, above vid b (c ∷ bs), range_partition-passed vid (suc i) (c ∷ bs))

-- For boundaries that the validation accepts for fewer than 2^32 partitions, the partition that
-- the range strategy finds is one more than the number of boundaries that are not above the
-- vertex.
pub compute_partition-passed :
    (bs : List ℤ) (vid : ℤ) (n : ℕ)
    → validate (range bs) n ≡ valid
    → n < 2 ^ 32
    → compute_partition (range bs) vid n ≡ passed vid bs + 1
unfolding compute_partition validate
compute_partition-passed bs vid n h k = ground (arith, range_partition-passed vid 0 bs)
