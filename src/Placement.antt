-- ===== src/Placement.antt =====
-- byoridb-meta/src/allocator.rs: which hosts hold the replicas of a partition. The map by
-- partition is an association list; a host is its name's bytes and its port. `usize` has
-- 64 bits, and the numbers of partitions, replicas and hosts are below 2^32.
pub mod Spread
pub mod Routes
mod Examples
use byoridb.Base.{
  ℕ, zero, suc, ◌+◌, ◌-◌, ◌%◌, min, List, [], ◌∷◌, Option, none, some, HashMap, insert, length,
  is_empty, get_elem?, if◌then◌else◌,
}
use byoridb.Raft.Types.{Bytes}

pub record AllocationResult : Type 0 where
  pub allocations : HashMap (List (Bytes × ℕ))

-- "localhost" at the port 9779.
abbrev pub localhost : Bytes × ℕ
localhost = (108 ∷ 111 ∷ 99 ∷ 97 ∷ 108 ∷ 104 ∷ 111 ∷ 115 ∷ 116 ∷ [], 9779)

-- The hosts at the indexes `start + replica_idx` modulo the number of hosts, for `count` values of
-- `replica_idx` from `replica_idx` on. `none` is the panic of an index out of range.
unfoldable pub pick : List (Bytes × ℕ) → ℕ → ℕ → ℕ → Option (List (Bytes × ℕ))
pick hosts start replica_idx zero = some []
pick hosts start replica_idx (suc count) =
    let rest = pick hosts start (suc replica_idx) count in
    elim (get_elem? hosts ((start + replica_idx) % length hosts)) [
      | none ↦ none
      | some host ↦ elim rest [ none ↦ none | some replicas ↦ some (host ∷ replicas) ]
    ]

-- The loop over the partitions from `part_id` on, `count` of them.
unfoldable pub fallback : ℕ → ℕ → HashMap (List (Bytes × ℕ)) → HashMap (List (Bytes × ℕ))
fallback part_id zero m = m
fallback part_id (suc count) m = fallback (suc part_id) count (insert part_id (localhost ∷ []) m)

unfoldable pub spread :
    List (Bytes × ℕ) → ℕ → ℕ → ℕ → HashMap (List (Bytes × ℕ)) → Option (HashMap (List (Bytes × ℕ)))
spread hosts effective_replica part_id zero m = some m
spread hosts effective_replica part_id (suc count) m =
    elim (pick hosts (part_id - 1) 0 effective_replica) [
      | none ↦ none
      | some replicas ↦
          spread hosts effective_replica (suc part_id) count (insert part_id replicas m)
    ]

abbrev allocated : Option (HashMap (List (Bytes × ℕ))) → Option AllocationResult
allocated none = none
allocated (some m) = some (record { allocations = m })

unfoldable pub allocate : ℕ → ℕ → List (Bytes × ℕ) → Option AllocationResult
allocate partition_num replica_factor available_hosts =
    if is_empty available_hosts
    then some (record { allocations = fallback 1 partition_num [] })
    else allocated
        (spread available_hosts (min replica_factor (length available_hosts)) 1 partition_num [])
