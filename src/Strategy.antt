-- ===== src/Strategy.antt =====
-- byoridb-common/src/partition.rs: the choice of the partition of a vertex by its space's strategy, and the
-- check of a strategy. A `u32` keeps its wrap-around, and `usize` has 64 bits, which no list's length exceeds.
pub mod Bounds
mod Examples
use byoridb.Base.{
  ℕ, suc, ◌+◌, ◌-◌, ◌%◌, ◌^◌, Bool, true, false, not, List, [], ◌∷◌, length, ◌==◌, if◌then◌else◌,
  u64_mod,
}
use byoridb.Keys.BigEndian.{ℤ, as_u64}
use byoridb.Kv.{lt_i64}
use byoridb.Hash as Hash

pub data PartitionStrategy : Type 0 where
  hash : PartitionStrategy
  range : List ℤ → PartitionStrategy
  modulo : PartitionStrategy

-- The loop over the boundaries, from the one with index `i` on.
unfoldable pub range_partition : ℤ → ℕ → List ℤ → ℕ
range_partition vid i [] = (i % 2 ^ 32 + 1) % 2 ^ 32
range_partition vid i (boundary ∷ boundaries) =
    let rest = range_partition vid (suc i) boundaries in
    if lt_i64 vid boundary then (i % 2 ^ 32 + 1) % 2 ^ 32 else rest

-- `vid.wrapping_neg() as u64` where `vid` is negative.
abbrev pub vid_abs : ℤ → ℕ
vid_abs (ℤ.pos n) = as_u64 (ℤ.pos n)
vid_abs (ℤ.negsuc n) = (u64_mod - as_u64 (ℤ.negsuc n)) % u64_mod

unfoldable pub compute_partition : PartitionStrategy → ℤ → ℕ → ℕ
unfolding range_partition
compute_partition hash vid n = if n == 0 then 1 else Hash.compute_partition vid n
compute_partition (range boundaries) vid n = if n == 0 then 1 else range_partition vid 0 boundaries
compute_partition modulo vid n = if n == 0 then 1 else (((vid_abs vid % n) % 2 ^ 32 + 1) % 2 ^ 32)

pub data Validation : Type 0 where
  valid no_partitions : Validation
  wrong_count : ℕ → ℕ → Validation
  not_increasing : ℤ → ℤ → Validation

unfoldable pub check_increasing : List ℤ → Validation
check_increasing [] = valid
check_increasing (a ∷ []) = valid
check_increasing (a ∷ b ∷ rest) =
    let later = check_increasing (b ∷ rest) in
    if not (lt_i64 a b) then not_increasing b a else later

unfoldable pub validate : PartitionStrategy → ℕ → Validation
unfolding check_increasing
validate hash n = if n == 0 then no_partitions else valid
validate (range boundaries) n =
    if n == 0
    then no_partitions
    else if not (length boundaries == n - 1)
    then wrong_count (n - 1) (length boundaries)
    else check_increasing boundaries
validate modulo n = if n == 0 then no_partitions else valid
