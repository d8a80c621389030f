-- ===== src/Placement/Routes.antt =====
-- byoridb-common/src/hash/murmur.rs and byoridb-meta/src/allocator.rs: the partition that a vertex
-- is routed to is one that hosts were allocated to.
use byoridb.Base.{ℕ, ◌^◌, ◌≤◌, ◌<◌, ◌≡◌, List, some, arith, lookup, length}
use byoridb.Raft.Types.{Bytes}
use byoridb.Keys.BigEndian.{ℤ}
use byoridb.Hash.{compute_partition}
use byoridb.Placement.{AllocationResult, allocate}
use byoridb.Placement.Spread.{allocate_lem}

compute_partition_bounds :
    (vid : ℤ) (n : ℕ)
    → 0 < n
    → n < 2 ^ 32
    → (1 ≤ compute_partition vid n) × (compute_partition vid n ≤ n)
unfolding compute_partition
compute_partition_bounds vid n h k = ground arith

-- With at least one partition, fewer than 2^32, at least one replica and at least one host, the
-- partition that a vertex is routed to has been allocated to at least one host.
pub compute_partition_hosted :
    (vid : ℤ) (n replica_factor : ℕ) (hosts : List (Bytes × ℕ))
    → 0 < n
    → n < 2 ^ 32
    → 0 < replica_factor
    → 0 < length hosts
    → (a : AllocationResult) × (allocate n replica_factor hosts ≡ some a)
      × ((rs : List (Bytes × ℕ)) × (lookup (compute_partition vid n) a.allocations ≡ some rs)
          × (0 < length rs))
compute_partition_hosted vid n k hosts h u r s =
    let (a, e, holds, others) = allocate_lem n k hosts s in
    let (low, high) = compute_partition_bounds vid n h u in
    let (rs, f, c, g) = holds (compute_partition vid n) low high in (a, e, (rs, f, omega arith))
