-- ===== src/Ring/Examples.antt =====
-- Concrete runs of the theorems on the ring, with a unary number in the place of a decimal one.
use byoridb.Base.{ℕ, zero, suc, ◌≡◌, ◌⊎◌, ◌≤◌, [], ◌∷◌, none, some, length, arith}
use byoridb.Raft.Types.{Bytes}
use byoridb.Ring.{RingNode, ConsistentHashRing, add_node, get_node, get_nodes}
use byoridb.Ring.Moves.{get_node-add_node, HasDistinctIds, get_nodes_lem}

abbrev strokes : ℕ → Bytes
strokes zero = []
strokes (suc n) = 49 ∷ strokes n

abbrev first : RingNode
first = record { host = 97 ∷ []; port = 1 }

abbrev second : RingNode
second = record { host = 98 ∷ []; port = 2 }

abbrev one_node : ConsistentHashRing
one_node = record {
  virtual_nodes = 2;
  ring = (40, (first, 0)) ∷ (90, (first, 1)) ∷ [];
  nodes = first ∷ [];
  partition_num = 4;
  replica_factor = 2;
  assignments_cache = none;
}

get_node-add_node_example :
    (get_node (add_node strokes one_node second) 50 ≡ some second)
    ⊎ (get_node (add_node strokes one_node second) 50 ≡ get_node one_node 50)
get_node-add_node_example = get_node-add_node strokes one_node second 50

get_nodes_example :
    HasDistinctIds strokes (get_nodes strokes one_node 50 2)
    × (length (get_nodes strokes one_node 50 2) ≤ 2)
    × (length (get_nodes strokes one_node 50 2) ≤ 1)
get_nodes_example = get_nodes_lem strokes one_node 50 2 (omega arith) (omega arith)
