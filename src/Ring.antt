-- ===== src/Ring.antt =====
-- byoridb-common/src/hash/consistent_ring.rs, `ConsistentHashRing`, and `hash_bytes` of hash/murmur.rs. The
-- `BTreeMap` of positions is a list in their order; printing a number in decimals (`show`) is a parameter.
pub mod Moves
mod Examples
use Prim.Native.Nat.{bit_xor}
use byoridb.Base.{
  ℕ, zero, suc, ◌+◌, ◌-◌, Bool, true, false, not, ◌&&◌, List, [], ◌∷◌, ◌++◌, Option, none, some,
  length, is_empty, retain, chunks, get_elem?, ltb, leb, ◌==◌, if◌then◌else◌, min,
}
use byoridb.Base.Ordered as Tree
use byoridb.Base.Ordered.{same}
use byoridb.Base.Lex.{lex_ltb}
use byoridb.Raft.Types.{Bytes}
use byoridb.Raft.Snapshot.{read_le, le_bytes}
use byoridb.Hash.{shift_xor, wrapping_mul}

-- The bytes of the last chunk are filled up with zeros, which does not change the number read.
unfoldable pub hash_chunks : ℕ → List Bytes → ℕ
unfolding shift_xor wrapping_mul
hash_chunks h [] = shift_xor h
hash_chunks h (chunk ∷ rest) =
    hash_chunks
      (wrapping_mul
        (shift_xor (wrapping_mul (shift_xor (bit_xor h (read_le chunk))) 0xff51afd7ed558ccd))
        0xc4ceb9fe1a85ec53)
      rest

unfoldable pub hash_bytes : Bytes → ℕ
unfolding hash_chunks
hash_bytes bytes = hash_chunks 0 (chunks 8 bytes)

pub record RingNode : Type 0 where
  pub host : Bytes
  pub port : ℕ

pub record PartitionAssignment : Type 0 where
  pub part_id : ℕ
  pub primary : RingNode
  pub replicas : List RingNode

abbrev pub Position : Type 0
Position = ℕ × (RingNode × ℕ)

pub record ConsistentHashRing : Type 0 where
  pub virtual_nodes : ℕ
  pub ring : List Position
  pub nodes : List RingNode
  pub partition_num : ℕ
  pub replica_factor : ℕ
  pub assignments_cache : Option (List PartitionAssignment)

abbrev pub new_ring : ℕ → ℕ → ℕ → ConsistentHashRing
new_ring partition_num replica_factor virtual_nodes = record {
  virtual_nodes = virtual_nodes;
  ring = [];
  nodes = [];
  partition_num = partition_num;
  replica_factor = replica_factor;
  assignments_cache = none;
}

-- `==` of nodes.
abbrev pub same_node : RingNode → RingNode → Bool
same_node a b = same lex_ltb a.host b.host && (a.port == b.port)

abbrev pub has_node : List RingNode → RingNode → Bool
has_node [] node = false
has_node (n ∷ ns) node = let rest = has_node ns node in if same_node n node then true else rest

abbrev pub head? {ℓ} : {A : Type ℓ} → List A → Option A
head? [] = none
head? (x ∷ xs) = some x

abbrev pub or_first : Option Position → Option Position → Option Position
or_first none p = p
or_first (some q) p = some q

abbrev pub node_of : Option Position → Option RingNode
node_of none = none
node_of (some p) = some p.1.0

unfoldable pub get_node : ConsistentHashRing → ℕ → Option RingNode
get_node r hash = node_of (or_first (head? (Tree.range_from ltb hash r.ring)) (head? r.ring))

module _ (show : ℕ → Bytes) where
  unfoldable pub node_id : RingNode → Bytes
  node_id node = node.host ++ (58 ∷ show node.port)

  unfoldable pub position : RingNode → ℕ → ℕ
  unfolding node_id hash_bytes
  position node vn = hash_bytes (node_id node ++ (35 ∷ show vn))

  -- The loops of `add_node` and of `remove_node`, from the virtual node `vn` on.
  unfoldable pub add_virtual : RingNode → ℕ → ℕ → List Position → List Position
  unfolding position
  add_virtual node vn zero ring = ring
  add_virtual node vn (suc left) ring =
      add_virtual node (suc vn) left (Tree.insert ltb (position node vn) (node, vn) ring)

  unfoldable pub remove_virtual : RingNode → ℕ → ℕ → List Position → List Position
  unfolding position
  remove_virtual node vn zero ring = ring
  remove_virtual node vn (suc left) ring =
      remove_virtual node (suc vn) left (Tree.remove ltb (position node vn) ring)

  unfoldable pub add_node : ConsistentHashRing → RingNode → ConsistentHashRing
  unfolding add_virtual
  add_node r node = if has_node r.nodes node then r else record r {
    ring = add_virtual node 0 r.virtual_nodes r.ring;
    nodes = r.nodes ++ node ∷ [];
    assignments_cache = none;
  }

  unfoldable pub remove_node : ConsistentHashRing → RingNode → ConsistentHashRing
  unfolding remove_virtual
  remove_node r node = if not (has_node r.nodes node) then r else record r {
    ring = remove_virtual node 0 r.virtual_nodes r.ring;
    nodes = retain (λ n. not (same_node n node)) r.nodes;
    assignments_cache = none;
  }

  unfoldable pub seen : List RingNode → Bytes → Bool
  unfolding node_id
  seen [] id = false
  seen (n ∷ ns) id = let rest = seen ns id in if same lex_ltb (node_id n) id then true else rest

  -- The walk of `get_nodes`, with the nodes found so far.
  unfoldable pub walk : ℕ → List RingNode → List Position → List RingNode
  unfolding seen node_id
  walk count found [] = found
  walk count found ((p, (node, vn)) ∷ rest) =
      let on = walk count found rest in
      let further = walk count (found ++ node ∷ []) rest in
      if seen found (node_id node)
      then on
      else if leb count (length found + 1)
      then found ++ node ∷ []
      else further

  unfoldable pub get_nodes : ConsistentHashRing → ℕ → ℕ → List RingNode
  unfolding walk
  get_nodes r hash count =
      if is_empty r.ring
      then []
      else walk (min count (length r.nodes)) [] (Tree.range_from ltb hash r.ring ++ r.ring)

  abbrev localhost : RingNode
  localhost = record { host = 108 ∷ 111 ∷ 99 ∷ 97 ∷ 108 ∷ 104 ∷ 111 ∷ 115 ∷ 116 ∷ []; port = 9779 }

  abbrev assigned : ℕ → List RingNode → List PartitionAssignment
  assigned part_id [] = []
  assigned part_id (n ∷ ns) = record { part_id = part_id; primary = n; replicas = ns } ∷ []

  -- The loop of `ensure_assignments`, from the partition `part_id` on.
  unfoldable pub assign : ConsistentHashRing → ℕ → ℕ → List PartitionAssignment
  unfolding get_nodes hash_bytes
  assign r part_id zero = []
  assign r part_id (suc left) =
      let rest = assign r (suc part_id) left in
      (if is_empty r.nodes
        then record { part_id = part_id; primary = localhost; replicas = [] } ∷ []
        else assigned part_id (get_nodes r (hash_bytes (le_bytes 4 part_id)) r.replica_factor))
      ++ rest

  unfoldable pub ensure_assignments : ConsistentHashRing → ConsistentHashRing
  unfolding assign
  ensure_assignments r = elim r.assignments_cache [
    | some a ↦ r
    | none ↦ record r { assignments_cache = some (assign r 1 r.partition_num) }
  ]
