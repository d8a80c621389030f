-- ===== src/Kv/Visits/Laws.antt =====
-- byoridb-kvstore/src/store.rs: the in-memory store's visiting scan does what the trait's does.
use byoridb.Base.{
  ℕ, zero, suc, ◌+◌, ◌≡◌, inl, inr, refl, Bool, true, false, List, [], ◌∷◌, Option, none, some,
  take, retain, leb, arith, Bool-cases,
}
use byoridb.Raft.Types.{Bytes}
use byoridb.Kv.{MemoryKvStore, Entry, prefix_range, scan_with_filter}
use byoridb.Kv.Visits.{
  visit_rows, visit_filtered, scan_with_filter_visit, scan_with_filter_visit_default,
}

module _ {ℓ} {S : Type ℓ} (filter : Bytes → Bytes → Bool)
    (visitor : S → Bytes → Bytes → S × Bool) where
  visit_unlimited :
      (st : S) (n : ℕ) (rows : List Entry)
      → visit_filtered filter visitor none st n rows
        ≡ visit_rows visitor st n (retain (λ e. filter e.0 e.1) rows)
  unfolding visit_rows visit_filtered
  visit_unlimited st n [] = refl
  visit_unlimited st n ((k, v) ∷ rows) =
      let next = visitor st k v in
      elim (Bool-cases (filter k v)) [
        | inl y ↦ elim (Bool-cases next.1) [
          | inl go ↦ rw (y, go) (visit_unlimited next.0 (suc n) rows)
          | inr stop ↦ rw (y, stop) refl
        ]
        | inr out ↦ rw out (visit_unlimited st n rows)
      ]

  visit_limited :
      (m st' : ℕ) (st : S) (n : ℕ) (rows : List Entry)
      → n + suc m ≡ st'
      → visit_filtered filter visitor (some st') st n rows
        ≡ visit_rows visitor st n (take (suc m) (retain (λ e. filter e.0 e.1) rows))
  unfolding visit_rows visit_filtered
  visit_limited m l st n [] h = refl
  visit_limited zero l st n ((k, v) ∷ rows) h =
      let next = visitor st k v in
      let full : leb l (suc n) ≡ true = ground (arith, h) in
      elim (Bool-cases (filter k v)) [
        | inl y ↦ elim (Bool-cases next.1) [
          | inl go ↦ rw (y, go, full) refl
          | inr stop ↦ rw (y, stop) refl
        ]
        | inr out ↦ rw out (visit_limited zero l st n rows h)
      ]
  visit_limited (suc m) l st n ((k, v) ∷ rows) h =
      let next = visitor st k v in
      let room : leb l (suc n) ≡ false = ground (arith, h) in
      elim (Bool-cases (filter k v)) [
        | inl y ↦ elim (Bool-cases next.1) [
          | inl go ↦ rw (y, go, room) (visit_limited m l next.0 (suc n) rows (omega arith))
          | inr stop ↦ rw (y, stop) refl
        ]
        | inr out ↦ rw out (visit_limited (suc m) l st n rows h)
      ]

  -- For any filter, visitor and limit, the in-memory store's visiting scan leaves the visitor in
  -- the state, and returns the count, that the trait's loop over the filtered and cut scan does.
  pub scan_with_filter_visit_lem :
      (s : MemoryKvStore) (prefix : Bytes) (st : S) (limit : Option ℕ)
      → scan_with_filter_visit s prefix filter visitor st limit
        ≡ scan_with_filter_visit_default s prefix filter visitor st limit
  unfolding scan_with_filter_visit scan_with_filter_visit_default scan_with_filter
  scan_with_filter_visit_lem s prefix st none =
      visit_unlimited st 0 (prefix_range prefix prefix s.current)
  scan_with_filter_visit_lem s prefix st (some zero) = unfold visit_rows in refl
  scan_with_filter_visit_lem s prefix st (some (suc m)) =
      let some_room : leb (suc m) 0 ≡ false = ground arith in
      rw some_room
        (visit_limited m (suc m) st 0 (prefix_range prefix prefix s.current) (omega arith))
