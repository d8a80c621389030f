-- ===== src/Kv/Visits.antt =====
-- byoridb-kvstore/src/store.rs: scans that hand each row to a visitor, whose state is passed on, and the scan
-- of the entities that have a history.
pub mod Laws
use byoridb.Base.{
  ℕ, zero, suc, ◌-◌, Bool, true, false, not, ◌||◌, List, [], ◌∷◌, ◌++◌, Option, none, some, length,
  take, drop, get_elem?, ltb, leb, ◌==◌, if◌then◌else◌,
}
use byoridb.Base.Ordered.{same}
use byoridb.Base.Lex.{lex_ltb}
use byoridb.Raft.Types.{Bytes}
use byoridb.Kv.{MemoryKvStore, Entry, prefix_range, scan_with_filter, count_prefix}

unfoldable pub count_prefixes : MemoryKvStore → List Bytes → List ℕ
count_prefixes s [] = []
count_prefixes s (p ∷ ps) = count_prefix s p ∷ count_prefixes s ps

unfoldable pub scan_prefix_limited : MemoryKvStore → Bytes → Option ℕ → List Entry
scan_prefix_limited s prefix limit = scan_with_filter s prefix (λ k v. true) limit

-- The loop of the trait's `scan_with_filter_visit`; the visitor's Boolean says to go on.
unfoldable pub visit_rows {ℓ} :
    {S : Type ℓ} → (S → Bytes → Bytes → S × Bool) → S → ℕ → List Entry → S × ℕ
visit_rows visitor st visited [] = (st, visited)
visit_rows visitor st visited ((k, v) ∷ rows) =
    let next = visitor st k v in
    let rest = visit_rows visitor next.0 (suc visited) rows in
    if not next.1 then (next.0, suc visited) else rest

unfoldable pub scan_with_filter_visit_default {ℓ} :
    {S : Type ℓ}
    → MemoryKvStore
    → Bytes
    → (Bytes → Bytes → Bool)
    → (S → Bytes → Bytes → S × Bool)
    → S
    → Option ℕ
    → S × ℕ
unfolding visit_rows
scan_with_filter_visit_default s prefix filter visitor st limit =
    visit_rows visitor st 0 (scan_with_filter s prefix filter limit)

-- `visited >= limit`, where `none` stands for `usize::MAX`, which no count of rows reaches.
abbrev pub reached : Option ℕ → ℕ → Bool
reached none visited = false
reached (some n) visited = leb n visited

-- The loop of the in-memory store.
unfoldable pub visit_filtered {ℓ} :
    {S : Type ℓ}
    → (Bytes → Bytes → Bool)
    → (S → Bytes → Bytes → S × Bool)
    → Option ℕ
    → S
    → ℕ
    → List Entry
    → S × ℕ
visit_filtered filter visitor limit st visited [] = (st, visited)
visit_filtered filter visitor limit st visited ((k, v) ∷ rows) =
    let next = visitor st k v in
    let skipped = visit_filtered filter visitor limit st visited rows in
    let rest = visit_filtered filter visitor limit next.0 (suc visited) rows in
    if filter k v
    then (if not next.1 || reached limit (suc visited) then (next.0, suc visited) else rest)
    else skipped

unfoldable pub scan_with_filter_visit {ℓ} :
    {S : Type ℓ}
    → MemoryKvStore
    → Bytes
    → (Bytes → Bytes → Bool)
    → (S → Bytes → Bytes → S × Bool)
    → S
    → Option ℕ
    → S × ℕ
unfolding visit_filtered prefix_range
scan_with_filter_visit s prefix filter visitor st limit =
    if reached limit 0
    then (st, 0)
    else visit_filtered filter visitor limit st 0 (prefix_range prefix prefix s.current)

abbrev pub ends_with : Bytes → List Bytes → Bool
ends_with e [] = false
ends_with e (x ∷ []) = same lex_ltb x e
ends_with e (x ∷ y ∷ ys) = ends_with e (y ∷ ys)

-- The entity of a history key, whose byte 17 places before the end is 0.
unfoldable pub entity_of : Bytes → Option Bytes
entity_of k = if ltb (length k) 17 then none else elim (get_elem? k (length k - 17)) [
  | some zero ↦ some (take (length k - 17) k)
  | some (suc b) ↦ none
  | none ↦ none
]

-- The loop of `scan_history_entity_keys`, with the keys collected so far.
unfoldable pub collect_entities : List Bytes → List Entry → List Bytes
unfolding entity_of
collect_entities out [] = out
collect_entities out ((k, v) ∷ rows) =
    collect_entities
      (elim (entity_of k) [ none ↦ out | some e ↦ if ends_with e out then out else out ++ e ∷ [] ])
      rows

unfoldable pub scan_history_entity_keys : MemoryKvStore → Bytes → List Bytes
unfolding collect_entities prefix_range
scan_history_entity_keys s entity_prefix =
    collect_entities [] (prefix_range entity_prefix entity_prefix s.history)
