-- ===== src/Auth/Budgets.antt =====
-- byoridb-graph/src/auth.rs: the loop of `retry_after` over the keys, by the failures of a key that count.
use byoridb.Base.{
  ℕ, ◌+◌, ◌-◌, ◌≤◌, ◌<◌, ◌≡◌, inl, inr, refl, sym, ap, ◌∙◌, Bool, true, false, ◌&&◌, List, [], ◌∷◌,
  Option, none, some, length, ltb, arith, Bool-cases, Option-cases,
}
use byoridb.Base.Ordered as Tree
use byoridb.Base.Ordered.{same, lookup-insert}
use byoridb.Base.Lex.{lex_ltb, lex-IsOrder}
use byoridb.Raft.Types.{Bytes}
use byoridb.Raft.Storage.Keys.{same_self}
use byoridb.Auth.{
  Failures, Admission, admitted, refused, panic, longest, account_key, source_key, expire,
  cutoff_at, check_keys,
}
use byoridb.Auth.Limits.{length-expire}

abbrev pub is_admitted : Admission → Bool
is_admitted admitted = true
is_admitted (refused wait) = false
is_admitted panic = false

module _ (window now : ℕ) where
  abbrev recent_of : Option (List ℕ) → ℕ
  recent_of none = 0
  recent_of (some entries) = length (expire entries (cutoff_at window now))

  -- How many failures of a key count at the moment.
  abbrev pub recent : Failures → Bytes → ℕ
  recent failures key = recent_of (Tree.lookup lex_ltb key failures)

  abbrev touched_with : Failures → Bytes → Option (List ℕ) → Failures
  touched_with failures key none = failures
  touched_with failures key (some entries) =
      Tree.insert lex_ltb key (expire entries (cutoff_at window now)) failures

  -- The table after a look at a key.
  abbrev pub touched : Failures → Bytes → Failures
  touched failures key = touched_with failures key (Tree.lookup lex_ltb key failures)

  recent-touched :
      (failures : Failures) (k j : Bytes)
      → same lex_ltb k j ≡ false
      → recent (touched failures k) j ≡ recent failures j
  recent-touched failures k j apart = elim (Option-cases (Tree.lookup lex_ltb k failures)) [
    | inl n ↦ rw n refl
    | inr (entries, e) ↦
        rw
          (
            e,
            lookup-insert lex_ltb lex-IsOrder k j (expire entries (cutoff_at window now)) failures,
            apart,
          )
          refl
  ]

  -- The two ways through the body of the loop.
  check-under :
      (failures : Failures) (k : Bytes) (limit : ℕ) (ks : List (Bytes × ℕ)) (result : Admission)
      → ltb (recent failures k) limit ≡ true
      → check_keys window now failures ((k, limit) ∷ ks) result
        ≡ check_keys window now (touched failures k) ks result
  unfolding check_keys
  check-under failures k limit ks result h = elim (Option-cases (Tree.lookup lex_ltb k failures)) [
    | inl n ↦ rw (n, check_keys) refl
    | inr (entries, e) ↦
        let u : ltb (length (expire entries (cutoff_at window now))) limit ≡ true = rw e at h in
        rw (e, check_keys, u) refl
  ]

  check-full :
      (failures : Failures) (k : Bytes) (limit : ℕ) (ks : List (Bytes × ℕ)) (result : Admission)
      (oldest : ℕ) (newer entries : List ℕ)
      → Tree.lookup lex_ltb k failures ≡ some entries
      → expire entries (cutoff_at window now) ≡ oldest ∷ newer
      → ltb (length (oldest ∷ newer)) limit ≡ false
      → check_keys window now failures ((k, limit) ∷ ks) result
        ≡ check_keys window now (touched failures k) ks (longest result (oldest + window - now))
  unfolding check_keys
  check-full failures k limit ks result oldest newer entries e kept u = ground (arith, e, kept, u)

  pub check-over :
      (failures : Failures) (k : Bytes) (limit : ℕ) (ks : List (Bytes × ℕ)) (result : Admission)
      → 0 < limit
      → ltb (recent failures k) limit ≡ false
      → (oldest : ℕ) × (newer : List ℕ) × (entries : List ℕ) × (Tree.lookup lex_ltb k failures
          ≡ some entries)
        × (expire entries (cutoff_at window now) ≡ oldest ∷ newer)
        × (check_keys window now failures ((k, limit) ∷ ks) result
            ≡ check_keys window now
                (touched failures k)
                ks
                (longest result (oldest + window - now)))
  check-over failures k limit ks result z h = elim (Option-cases (Tree.lookup lex_ltb k failures)) [
    | inl n ↦ let u : ltb 0 limit ≡ false = rw n at h in absurd (ground (arith, u))
    | inr (entries, e) ↦
        let u : ltb (length (expire entries (cutoff_at window now))) limit ≡ false = rw e at h in
        let (oldest, newer, kept) =
          full (expire entries (cutoff_at window now)) (ground (arith, u)) in
        (
          oldest,
          newer,
          entries,
          e,
          kept,
          check-full failures k limit ks result oldest newer entries e kept
              (ap (λ es. ltb (length es) limit) (sym kept) ∙ u),
        )
  ]
    where
      full : (es : List ℕ) → 0 < length es → (oldest : ℕ) × (newer : List ℕ) × (es ≡ oldest ∷ newer)
      full [] g = absurd (omega arith)
      full (e ∷ es) g = (e, es, refl)

  -- A refusal is not taken back.
  still_refused :
      (failures : Failures) (k : Bytes) (limit wait : ℕ)
      → 0 < limit
      → is_admitted (check_keys window now failures ((k, limit) ∷ []) (refused wait)).1 ≡ false
  unfolding check_keys
  still_refused failures k limit wait z = elim (Bool-cases (ltb (recent failures k) limit)) [
    | inl y ↦ rw (check-under failures k limit [] (refused wait) y) refl
    | inr n ↦
        let (oldest, newer, entries, e, kept, step) =
          check-over failures k limit [] (refused wait) z n in
        rw step refl
  ]

  pub admission-one :
      (failures : Failures) (k : Bytes) (limit : ℕ)
      → 0 < limit
      → is_admitted (check_keys window now failures ((k, limit) ∷ []) admitted).1
        ≡ ltb (recent failures k) limit
  unfolding check_keys
  admission-one failures k limit z = elim (Bool-cases (ltb (recent failures k) limit)) [
    | inl y ↦ rw (check-under failures k limit [] admitted y) (sym y)
    | inr n ↦
        let (oldest, newer, entries, e, kept, step) = check-over failures k limit [] admitted z n in
        rw step (sym n)
  ]

  pub admission-two :
      (failures : Failures) (j k : Bytes) (limit bound : ℕ)
      → 0 < limit
      → 0 < bound
      → same lex_ltb j k ≡ false
      → is_admitted (check_keys window now failures ((j, limit) ∷ (k, bound) ∷ []) admitted).1
        ≡ (ltb (recent failures j) limit && ltb (recent failures k) bound)
  admission-two failures j k limit bound z y apart =
      elim (Bool-cases (ltb (recent failures j) limit)) [
        | inl u ↦
            ap (λ (r : Failures × Admission). is_admitted r.1)
              (check-under failures j limit ((k, bound) ∷ []) admitted u)
            ∙ admission-one (touched failures j) k bound y
            ∙ ap (λ n. ltb n bound) (recent-touched failures j k apart)
            ∙ rw u refl
        | inr n ↦
            let (oldest, newer, entries, e, kept, step) =
              check-over failures j limit ((k, bound) ∷ []) admitted z n in
            ap (λ (r : Failures × Admission). is_admitted r.1) step
            ∙ still_refused (touched failures j) k bound (oldest + window - now) y
            ∙ rw n refl
      ]

pub account-source :
    (name source : Bytes) → same lex_ltb (account_key name) (source_key source) ≡ false
unfolding lex_ltb
account-source name source = refl

pub recent-seen :
    (window now later : ℕ) (failures : Failures) (k : Bytes) (entries : List ℕ)
    → Tree.lookup lex_ltb k failures ≡ some entries
    → recent window later (touched window now failures k) k
      ≡ length (expire (expire entries (cutoff_at window now)) (cutoff_at window later))
recent-seen window now later failures k entries e =
    rw
      (
        e,
        lookup-insert lex_ltb lex-IsOrder k k (expire entries (cutoff_at window now)) failures,
        same_self k,
      )
      refl

-- Behind the oldest failure fewer count.
pub expire-later :
    (window later oldest : ℕ) (newer : List ℕ)
    → oldest + window < later
    → length (expire (oldest ∷ newer) (cutoff_at window later)) ≤ length newer
unfolding expire
expire-later window later oldest newer h =
    ground (arith, length-expire newer (cutoff_at window later))
