-- ===== src/Kv/Scans.antt =====
-- byoridb-kvstore/src/store.rs: scans by a prefix, and what is left after the deletion of one.
use byoridb.Base.{
  ℕ, ◌≡◌, refl, sym, ap, ◌∙◌, Bool, true, false, List, [], ◌∷◌, ◌++◌, none, some, length, map,
  retain, chunks, concat, concat-chunks, leb, if◌then◌else◌, arith,
}
use byoridb.Base.Ordered as Tree
use byoridb.Base.Ordered.{
  IsSorted, same, lookup-insert, lookup-remove, insert-IsSorted, remove-IsSorted,
}
use byoridb.Base.Lex.{
  lex_ltb, lex-IsOrder, starts_with, starts_with_self, starts_with-not-below, scan_lem, in_range,
}
use byoridb.Raft.Types.{Bytes}
use byoridb.Kv.{
  MemoryKvStore, Entry, get, put, delete, batch_delete, batch_delete_all, scan_prefix, prefix_range,
  delete_prefix_chunked,
}

abbrev pub with_prefix : Bytes → List Entry → List Entry
with_prefix p m = retain (λ e. starts_with p e.0) m

in_range_self : (p : Bytes) (m : List Entry) → retain (in_range p p) m ≡ with_prefix p m
in_range_self p [] = refl
in_range_self p ((k, v) ∷ m) = ground (arith, in_range_self p m, starts_with-not-below p k)

-- In a table in key order the scan of a prefix finds exactly the entries whose key has it, in order.
pub scan_prefix_lem :
    (s : MemoryKvStore) (p : Bytes)
    → IsSorted lex_ltb s.current
    → scan_prefix s p ≡ with_prefix p s.current
unfolding scan_prefix prefix_range
scan_prefix_lem s p o = scan_lem p p (starts_with_self p) s.current o ∙ in_range_self p s.current

abbrev pub named : List Bytes → Bytes → Bool
named [] k = false
named (j ∷ js) k = let rest = named js k in if same lex_ltb j k then true else rest

pub get-put :
    (s : MemoryKvStore) (j v k : Bytes)
    → get (put s j v) k ≡ (if same lex_ltb j k then some v else get s k)
unfolding get put
get-put s j v k = lookup-insert lex_ltb lex-IsOrder j k v s.current

pub get-delete :
    (s : MemoryKvStore) (j k : Bytes)
    → get (delete s j) k ≡ (if same lex_ltb j k then none else get s k)
unfolding get delete
get-delete s j k = lookup-remove lex_ltb lex-IsOrder j k s.current

get-batch_delete :
    (s : MemoryKvStore) (keys : List Bytes) (k : Bytes)
    → get (batch_delete s keys) k ≡ (if named keys k then none else get s k)
unfolding batch_delete
get-batch_delete s [] k = refl
get-batch_delete s (j ∷ keys) k =
    ground (arith, get-batch_delete (delete s j) keys k, get-delete s j k)

batch_delete-append :
    (s : MemoryKvStore) (js ks : List Bytes)
    → batch_delete s (js ++ ks) ≡ batch_delete (batch_delete s js) ks
unfolding batch_delete
batch_delete-append s [] ks = refl
batch_delete-append s (j ∷ js) ks = batch_delete-append (delete s j) js ks

batch_delete_all_lem :
    (s : MemoryKvStore) (cs : List (List Bytes))
    → batch_delete_all s cs ≡ batch_delete s (concat cs)
unfolding batch_delete_all
batch_delete_all_lem s [] = unfold batch_delete in refl
batch_delete_all_lem s (c ∷ cs) =
    batch_delete_all_lem (batch_delete s c) cs ∙ sym (batch_delete-append s c (concat cs))

pub same_eq : (a b : Bytes) → same lex_ltb a b ≡ true → a ≡ b
same_eq a b h = lex-IsOrder.connected a b (ground arith) (ground arith)

-- The keys with the prefix that are in the table are named, and no key without it is.
pub named-keys :
    (p : Bytes) (m : List Entry) (k : Bytes)
    → (starts_with p k ≡ false → named (map (λ e. e.0) (with_prefix p m)) k ≡ false)
      × (starts_with p k ≡ true
          → named (map (λ e. e.0) (with_prefix p m)) k ≡ false
          → Tree.lookup lex_ltb k m ≡ none)
unfolding Tree.lookup
named-keys p [] k = (λ h. refl, λ h n. refl)
named-keys p ((j, v) ∷ m) k =
    let ih = named-keys p m k in
    (λ h. ground (arith, ih.0, same_eq j k), λ h n. ground (arith, ih.1, same_eq j k))

-- In a table in key order, a deletion by prefix in chunks of any size, zero too, leaves exactly
-- the keys without the prefix with their values, and returns how many keys had it.
pub delete_prefix_chunked_lem :
    (s : MemoryKvStore) (p : Bytes) (chunk : ℕ)
    → IsSorted lex_ltb s.current
    → ((k : Bytes)
        → get (delete_prefix_chunked s p chunk).0 k ≡ (if starts_with p k then none else get s k))
      × ((delete_prefix_chunked s p chunk).1 ≡ length (with_prefix p s.current))
unfolding delete_prefix_chunked
delete_prefix_chunked_lem s p chunk o =
    let size : ℕ = if leb 1 chunk then chunk else 1 in
    let keys = map (λ e. e.0) (with_prefix p s.current) in
    let all = concat-chunks size keys (ground arith) in
    (
      λ k.
          let t : get (batch_delete s keys) k ≡ (if starts_with p k then none else get s k) =
            unfold get in ground (arith, get-batch_delete s keys k, named-keys p s.current k) in
          rw (scan_prefix_lem s p o, batch_delete_all_lem s (chunks size keys), all) t,
      ap length (scan_prefix_lem s p o),
    )
