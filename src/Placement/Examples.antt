-- ===== src/Placement/Examples.antt =====
-- byoridb-meta/src/allocator.rs: four partitions on three hosts with two replicas each.
use byoridb.Base.{ℕ, ◌<◌, ◌≡◌, refl, List, [], ◌∷◌, some, arith, lookup, insert, length}
use byoridb.Raft.Types.{Bytes}
use byoridb.Keys.BigEndian.{pos}
use byoridb.Hash.{compute_partition}
use byoridb.Placement.{AllocationResult, pick, spread, allocate}
use byoridb.Placement.Spread.{AreDifferent, allocate_spreads}
use byoridb.Placement.Routes.{compute_partition_hosted}

abbrev host : ℕ → Bytes × ℕ
host k = (104 ∷ k ∷ [], 9779)

abbrev hosts : List (Bytes × ℕ)
hosts = host 1 ∷ host 2 ∷ host 3 ∷ []

hosts-AreDifferent : AreDifferent hosts
hosts-AreDifferent i j b c e = ground arith

abbrev replicas : List (Bytes × ℕ)
replicas = host 3 ∷ host 1 ∷ []

abbrev allocated_hosts : AllocationResult
allocated_hosts = record {
  allocations =
      (1, host 1 ∷ host 2 ∷ [])
      ∷ (2, host 2 ∷ host 3 ∷ [])
      ∷ (3, replicas)
      ∷ (4, host 1 ∷ host 2 ∷ [])
      ∷ [];
}

allocates : allocate 4 2 hosts ≡ some allocated_hosts
unfolding allocate spread pick insert
allocates = refl

third : lookup 3 allocated_hosts.allocations ≡ some replicas
unfolding lookup
third = refl

allocate_spreads_example : AreDifferent replicas
allocate_spreads_example =
    allocate_spreads 4 2 hosts allocated_hosts 3 replicas (omega arith) hosts-AreDifferent allocates
      (omega arith) (omega arith) third

compute_partition_hosted_example :
    (a : AllocationResult) × (allocate 4 2 hosts ≡ some a)
    × ((rs : List (Bytes × ℕ)) × (lookup (compute_partition (pos 12345) 4) a.allocations ≡ some rs)
        × (0 < length rs))
compute_partition_hosted_example =
    compute_partition_hosted (pos 12345) 4 2 hosts (omega arith) (omega arith) (omega arith)
      (omega arith)
