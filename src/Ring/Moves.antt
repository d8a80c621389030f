-- ===== src/Ring/Moves.antt =====
-- byoridb-common/src/hash/consistent_ring.rs: lookups after a node has joined, and
-- the walk for replicas.
use byoridb.Base.{
  ℕ, zero, suc, ◌+◌, ◌≤◌, ◌≡◌, ◌⊎◌, inl, inr, refl, ap, ◌∙◌, true, false, List, [], ◌∷◌, ◌++◌,
  Option, none, some, length, length-append, is_empty, ltb, leb, if◌then◌else◌, arith, Bool-cases,
  min,
}
use byoridb.Base.Ordered as Tree
use byoridb.Base.Ordered.{same}
use byoridb.Base.Lex.{lex_ltb}
use byoridb.Raft.Types.{Bytes}
use byoridb.Ring.{
  RingNode, Position, ConsistentHashRing, head?, or_first, node_of, get_node, node_id, position,
  add_virtual, add_node, has_node, seen, walk, get_nodes,
}

-- The position found from `hash` on, or else the first one.
abbrev found_from : ℕ → List Position → Option RingNode
found_from hash m = node_of (or_first (head? (Tree.range_from ltb hash m)) (head? m))

range-insert :
    (hash p vn : ℕ) (n : RingNode) (m : List Position)
    → (head? (Tree.range_from ltb hash (Tree.insert ltb p (n, vn) m)) ≡ some (p, (n, vn)))
      ⊎ (head? (Tree.range_from ltb hash (Tree.insert ltb p (n, vn) m))
          ≡ head? (Tree.range_from ltb hash m))
unfolding Tree.range_from Tree.insert
range-insert hash p vn n [] = elim (Bool-cases (ltb p hash)) [
  | inl y ↦ inr (rw y refl)
  | inr z ↦ inl (rw z refl)
]
range-insert hash p vn n ((q, w) ∷ m) = elim (Bool-cases (ltb p q)) [
  | inl before ↦ elim (Bool-cases (ltb p hash)) [
    | inl y ↦ inr (rw (before, y) refl)
    | inr z ↦ inl (rw (before, z) refl)
  ]
  | inr after ↦ elim (Bool-cases (ltb q p)) [
    | inl behind ↦ elim (Bool-cases (ltb q hash)) [
      | inl y ↦ rw (after, behind, y) (range-insert hash p vn n m)
      | inr z ↦ inr (rw (after, behind, z) refl)
    ]
    | inr same_place ↦ elim (Bool-cases (ltb p hash)) [
      | inl y ↦
          let y' : ltb q hash ≡ true = ground (arith, after, same_place, y) in
          inr (rw (after, same_place, y, y') refl)
      | inr z ↦ inl (rw (after, same_place, z) refl)
    ]
  ]
]

head-insert :
    (p vn : ℕ) (n : RingNode) (m : List Position)
    → (head? (Tree.insert ltb p (n, vn) m) ≡ some (p, (n, vn)))
      ⊎ (head? (Tree.insert ltb p (n, vn) m) ≡ head? m)
unfolding Tree.insert
head-insert p vn n [] = inl refl
head-insert p vn n ((q, w) ∷ m) = elim (Bool-cases (ltb p q)) [
  | inl before ↦ inl (rw before refl)
  | inr after ↦ elim (Bool-cases (ltb q p)) [
    | inl behind ↦ inr (rw (after, behind) refl)
    | inr same_place ↦ inl (rw (after, same_place) refl)
  ]
]

found_from-insert :
    (hash p vn : ℕ) (n : RingNode) (m : List Position)
    → (found_from hash (Tree.insert ltb p (n, vn) m) ≡ some n)
      ⊎ (found_from hash (Tree.insert ltb p (n, vn) m) ≡ found_from hash m)
found_from-insert hash p vn n m = elim (range-insert hash p vn n m) [
  | inl e ↦ inl (ap (λ o. node_of (or_first o (head? (Tree.insert ltb p (n, vn) m)))) e)
  | inr e ↦
      let step = ap (λ o. node_of (or_first o (head? (Tree.insert ltb p (n, vn) m)))) e in
      elim (head-insert p vn n m) [
        | inr f ↦ inr (step ∙ ap (λ o. node_of (or_first (head? (Tree.range_from ltb hash m)) o)) f)
        | inl f ↦ wrapped (head? (Tree.range_from ltb hash m)) (head? m) f step
      ]
]
  where
    wrapped :
        (o old : Option Position)
        → head? (Tree.insert ltb p (n, vn) m) ≡ some (p, (n, vn))
        → found_from hash (Tree.insert ltb p (n, vn) m)
          ≡ node_of (or_first o (head? (Tree.insert ltb p (n, vn) m)))
        → (found_from hash (Tree.insert ltb p (n, vn) m) ≡ some n)
          ⊎ (found_from hash (Tree.insert ltb p (n, vn) m) ≡ node_of (or_first o old))
    wrapped none old f s = inl (s ∙ ap node_of f)
    wrapped (some q) old f s = inr s

module _ (show : ℕ → Bytes) where
  found_from-add_virtual :
      (hash : ℕ) (node : RingNode) (vn left : ℕ) (m : List Position)
      → (found_from hash (add_virtual show node vn left m) ≡ some node)
        ⊎ (found_from hash (add_virtual show node vn left m) ≡ found_from hash m)
  unfolding add_virtual
  found_from-add_virtual hash node vn zero m = inr refl
  found_from-add_virtual hash node vn (suc left) m =
      let at = position show node vn in
      elim (found_from-add_virtual hash node (suc vn) left (Tree.insert ltb at (node, vn) m)) [
        | inl e ↦ inl e
        | inr e ↦ elim (found_from-insert hash at vn node m) [
          | inl f ↦ inl (e ∙ f)
          | inr f ↦ inr (e ∙ f)
        ]
      ]

  -- After a node has joined the ring, every hash is the new node's or the node's that it was
  -- before.
  pub get_node-add_node :
      (r : ConsistentHashRing) (node : RingNode) (hash : ℕ)
      → (get_node (add_node show r node) hash ≡ some node)
        ⊎ (get_node (add_node show r node) hash ≡ get_node r hash)
  unfolding get_node add_node
  get_node-add_node r node hash = elim (Bool-cases (has_node r.nodes node)) [
    | inl known ↦ inr (rw known refl)
    | inr new ↦ rw new (found_from-add_virtual hash node 0 r.virtual_nodes r.ring)
  ]

  -- No two of the nodes have one id.
  abbrev pub HasDistinctIds : List RingNode → Type 0
  HasDistinctIds [] = Unit
  HasDistinctIds (n ∷ ns) = (seen show ns (node_id show n) ≡ false) × HasDistinctIds ns

  seen-append :
      (ns : List RingNode) (n : RingNode) (id : Bytes)
      → seen show (ns ++ n ∷ []) id
        ≡ (if seen show ns id then true else same lex_ltb (node_id show n) id)
  unfolding seen
  seen-append [] n id = ground arith
  seen-append (x ∷ ns) n id = ground (arith, seen-append ns n id)

  append-HasDistinctIds :
      (ns : List RingNode) (n : RingNode)
      → HasDistinctIds ns
      → seen show ns (node_id show n) ≡ false
      → HasDistinctIds (ns ++ n ∷ [])
  unfolding seen
  append-HasDistinctIds [] n h k = (refl, tt)
  append-HasDistinctIds (x ∷ ns) n (fresh, h) k = (
    ground (arith, fresh, k, seen-append ns n (node_id show x)),
    append-HasDistinctIds ns n h (ground (arith, k)),
  )

  walk_lem :
      (count : ℕ) (found : List RingNode) (m : List Position)
      → HasDistinctIds found
      → length found + 1 ≤ count
      → HasDistinctIds (walk show count found m) × (length (walk show count found m) ≤ count)
  unfolding walk
  walk_lem count found [] h k = (h, omega arith)
  walk_lem count found ((p, (n, vn)) ∷ m) h k =
      let longer = length-append found (n ∷ []) in
      elim (Bool-cases (seen show found (node_id show n))) [
        | inl y ↦ rw y (walk_lem count found m h k)
        | inr new ↦
            let distinct = append-HasDistinctIds found n h new in
            elim (Bool-cases (leb count (length found + 1))) [
              | inl full ↦ rw (new, full) (distinct, omega (arith, longer, k))
              | inr room ↦
                  rw (new, room)
                    (walk_lem count (found ++ n ∷ []) m distinct (ground (arith, longer, room)))
            ]
      ]

  -- For a count of at least one on a ring with a node, no two of the nodes chosen for a hash have
  -- one id, and there are at most as many as the count and as the nodes.
  pub get_nodes_lem :
      (r : ConsistentHashRing) (hash count : ℕ)
      → 1 ≤ count
      → 1 ≤ length r.nodes
      → HasDistinctIds (get_nodes show r hash count)
        × (length (get_nodes show r hash count) ≤ count)
        × (length (get_nodes show r hash count) ≤ length r.nodes)
  unfolding get_nodes
  get_nodes_lem r hash count h k =
      let (distinct, few) =
        walk_lem (min count (length r.nodes)) [] (Tree.range_from ltb hash r.ring ++ r.ring) tt
          (ground (arith, h, k)) in
      elim (Bool-cases (is_empty r.ring)) [
        | inl e ↦ rw e (tt, omega arith, omega arith)
        | inr e ↦ rw e (distinct, ground (arith, few), ground (arith, few))
      ]
