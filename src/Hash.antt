-- ===== src/Hash.antt =====
-- byoridb-common/src/hash/murmur.rs: the partition of a vertex by the hash of its id.
use Prim.Native.Nat.{bit_xor}
use byoridb.Base.{ℕ, ◌+◌, ◌*◌, ◌/◌, ◌%◌, ◌^◌, ◌==◌, if◌then◌else◌, u64_mod}
use byoridb.Keys.BigEndian.{ℤ, as_u64}

-- `h ^= h >> 33`
unfoldable pub shift_xor : ℕ → ℕ
shift_xor h = bit_xor h (h / 2 ^ 33)

unfoldable pub wrapping_mul : ℕ → ℕ → ℕ
wrapping_mul a b = (a * b) % u64_mod

unfoldable pub hash_vid : ℤ → ℕ
unfolding shift_xor wrapping_mul
hash_vid vid = shift_xor (
    wrapping_mul (shift_xor (wrapping_mul (shift_xor (as_u64 vid)) 0xff51afd7ed558ccd))
      0xc4ceb9fe1a85ec53)

unfoldable pub compute_partition : ℤ → ℕ → ℕ
compute_partition vid partition_num =
    if partition_num == 0 then 1 else ((hash_vid vid % partition_num) % 2 ^ 32 + 1) % 2 ^ 32
