-- ===== src/Placement/Spread.antt =====
-- byoridb-meta/src/allocator.rs: every partition has its replicas on distinct hosts, in a round.
use byoridb.Base.{
  ℕ, zero, suc, ◌+◌, ◌-◌, ◌%◌, ◌≤◌, ◌<◌, ◌≡◌, ◌⊎◌, refl, min, List, [], ◌∷◌, none, some, arith,
  HashMap, lookup, insert, lookup-insert, some_inj, sym, ap, subst, ◌∙◌, length, get_elem?, ltb,
  if◌then◌else◌,
}
use byoridb.Raft.Types.{Bytes}
use byoridb.Placement.{AllocationResult, pick, spread, allocate}

get_elem?-total :
    {A : Type 0} (xs : List A) (i : ℕ) → i < length xs → (x : A) × (get_elem? xs i ≡ some x)
get_elem?-total [] i h = absurd (omega arith)
get_elem?-total (x ∷ xs) zero h = (x, refl)
get_elem?-total (x ∷ xs) (suc i) h = get_elem?-total xs i (omega arith)

mod_apart : (a i j h : ℕ) → i < h → j < h → (a + i) % h ≡ (a + j) % h → i ≡ j
mod_apart a i j h l k e = grind arith

rounds :
    (hosts : List (Bytes × ℕ)) (start first count : ℕ) (x : Bytes × ℕ) (rs : List (Bytes × ℕ))
    → get_elem? hosts ((start + first) % length hosts) ≡ some x
    → ((i : ℕ)
        → i < count
        → get_elem? rs i ≡ get_elem? hosts ((start + (suc first + i)) % length hosts))
    → (i : ℕ) → i < suc count
    → get_elem? (x ∷ rs) i ≡ get_elem? hosts ((start + (first + i)) % length hosts)
rounds hosts start first count x rs e g zero l = ground (arith, e)
rounds hosts start first count x rs e g (suc i) l = ground (arith, g i)

pick_lem :
    (hosts : List (Bytes × ℕ)) (start first count : ℕ)
    → 0 < length hosts
    → (rs : List (Bytes × ℕ)) × (pick hosts start first count ≡ some rs)
      × (length rs ≡ count)
      × ((i : ℕ)
          → i < count
          → get_elem? rs i ≡ get_elem? hosts ((start + (first + i)) % length hosts))
unfolding pick
pick_lem hosts start first zero h = ([], refl, refl, λ i l. absurd (omega arith))
pick_lem hosts start first (suc count) h =
    let (x, e) = get_elem?-total hosts ((start + first) % length hosts) (omega arith) in
    let (rs, f, l, g) = pick_lem hosts start (suc first) count h in
    (x ∷ rs, ground arith, omega arith, rounds hosts start first count x rs e g)

spread_lem :
    (hosts : List (Bytes × ℕ)) (k part_id count : ℕ) (m : HashMap (List (Bytes × ℕ)))
    → 0 < length hosts
    → (m' : HashMap (List (Bytes × ℕ))) × (spread hosts k part_id count m ≡ some m')
      × ((p : ℕ)
          → lookup p m' ≡ (
              if ltb p part_id
              then lookup p m
              else if ltb p (part_id + count)
              then pick hosts (p - 1) 0 k
              else lookup p m))
unfolding spread
spread_lem hosts k part_id zero m h = (m, refl, λ p. ground arith)
spread_lem hosts k part_id (suc count) m h =
    let (rs, f, l, g) = pick_lem hosts (part_id - 1) 0 k h in
    let (m', e, r) = spread_lem hosts k (suc part_id) count (insert part_id rs m) h in
    (m', ground arith, λ p. ground (arith, r p, lookup-insert part_id p rs m))

-- With at least one host the allocation does not panic; every partition from 1 to their number
-- gets as many replicas as asked for or as there are hosts, the replica `i` of the partition `p`
-- on the host at the index `p - 1 + i` modulo the number of hosts; and no other partition is
-- allocated.
pub allocate_lem :
    (partition_num replica_factor : ℕ) (hosts : List (Bytes × ℕ))
    → 0 < length hosts
    → (a : AllocationResult) × (allocate partition_num replica_factor hosts ≡ some a)
      × ((p : ℕ)
          → 1 ≤ p
          → p ≤ partition_num
          → (rs : List (Bytes × ℕ)) × (lookup p a.allocations ≡ some rs)
            × (length rs ≡ min replica_factor (length hosts))
            × ((i : ℕ)
                → i < length rs
                → get_elem? rs i ≡ get_elem? hosts (((p - 1) + i) % length hosts)))
      × ((p : ℕ) → (p < 1) ⊎ (partition_num < p) → lookup p a.allocations ≡ none)
unfolding allocate lookup
allocate_lem n k hosts h =
    let (m, e, r) = spread_lem hosts (min k (length hosts)) 1 n [] h in
    (
      record { allocations = m },
      ground arith,
      λ p l u.
          (let (rs, f, c, g) = pick_lem hosts (p - 1) 0 (min k (length hosts)) h in
            (rs, ground (arith, r p), c, λ i b. ground (arith, g i))),
      λ p o. ground (arith, r p),
    )

-- No host is listed twice.
abbrev pub AreDifferent : List (Bytes × ℕ) → Type 0
AreDifferent hosts =
    (i j : ℕ) → i < length hosts → j < length hosts → get_elem? hosts i ≡ get_elem? hosts j → i ≡ j

-- With at least one host and no host listed twice, no partition that was allocated has two
-- replicas on the same host.
pub allocate_spreads :
    (partition_num replica_factor : ℕ) (hosts : List (Bytes × ℕ)) (a : AllocationResult) (p : ℕ)
    (rs : List (Bytes × ℕ))
    → 0 < length hosts
    → AreDifferent hosts
    → allocate partition_num replica_factor hosts ≡ some a
    → 1 ≤ p
    → p ≤ partition_num
    → lookup p a.allocations ≡ some rs
    → AreDifferent rs
allocate_spreads n k hosts a p rs h d e l u f i j b c same =
    let (a', e', holds, others) = allocate_lem n k hosts h in
    let (rs', f', count, round) = holds p l u in
    let a_same : a' ≡ a = some_inj (sym e' ∙ e) in
    let rs_same : rs' ≡ rs = some_inj (sym f' ∙ (ap (λ x. lookup p x.allocations) a_same ∙ f)) in
    let known : (length rs ≡ min k (length hosts))
        × ((i : ℕ)
            → i < length rs
            → get_elem? rs i ≡ get_elem? hosts (((p - 1) + i) % length hosts)) =
      subst
        (λ x.
          (length x ≡ min k (length hosts))
          × ((i : ℕ)
              → i < length x
              → get_elem? x i ≡ get_elem? hosts (((p - 1) + i) % length hosts)))
        rs_same (count, round) in
    mod_apart (p - 1) i j (length hosts) (omega (arith, known.0)) (omega (arith, known.0))
      (d _ _ (omega arith) (omega arith) (sym (known.1 i b) ∙ (same ∙ known.1 j c)))
