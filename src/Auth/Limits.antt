-- ===== src/Auth/Limits.antt =====
-- byoridb-graph/src/auth.rs: the bounds on the table of failed logins.
use byoridb.Base.{
  ℕ, ◌+◌, ◌≤◌, ◌<◌, ◌≡◌, inl, inr, refl, Bool, true, List, [], ◌∷◌, ◌++◌, Option, none, some, All,
  length, length-append, retain, ltb, leb, if◌then◌else◌, arith, Bool-cases, Option-cases,
}
use byoridb.Base.Ordered as Tree
use byoridb.Base.Ordered.{IsSorted, AllAbove, same, insert-IsSorted, retain-IsSorted}
use byoridb.Base.Lex.{lex_ltb, lex-IsOrder}
use byoridb.Base.Members.{length-retain, All-retain}
use byoridb.Raft.Types.{Bytes}
use byoridb.Auth.{
  LoginRateLimiter, Failures, max_rate_limit_keys, expire, cutoff_at, prune, charge, keys,
  record_failure,
}

pub length-expire :
    (entries : List ℕ) (cutoff : ℕ) → length (expire entries cutoff) ≤ length entries
unfolding expire
length-expire [] cutoff = omega arith
length-expire (entry ∷ entries) cutoff = ground (arith, length-expire entries cutoff)

-- The table is in order, it has not too many keys, and no key has more failures than the limit.
pub record IsBounded (limit : ℕ) (failures : Failures) : Type 0 where
  pub sorted : IsSorted lex_ltb failures
  pub few : length failures ≤ max_rate_limit_keys
  pub short : All (λ (e : Bytes × List ℕ). length e.1 ≤ limit) failures

length-insert :
    (k : Bytes) (v : List ℕ) (m : Failures) → length (Tree.insert lex_ltb k v m) ≤ length m + 1
unfolding Tree.insert
length-insert k v [] = omega arith
length-insert k v ((j, w) ∷ m) = ground (arith, length-insert k v m)

lookup-above :
    (j k : Bytes) (m : Failures)
    → AllAbove lex_ltb j m
    → lex_ltb k j ≡ true
    → Tree.lookup lex_ltb k m ≡ none
unfolding Tree.lookup
lookup-above j k [] a h = refl
lookup-above j k ((i, w) ∷ m) a h =
    ground (arith, a.0, lex-IsOrder.trans k j i, lex-IsOrder.irrefl i, lookup-above j k m a.1 h)

-- A key that the table has takes no room.
pub length-insert_known :
    (k : Bytes) (v old : List ℕ) (m : Failures)
    → IsSorted lex_ltb m
    → Tree.lookup lex_ltb k m ≡ some old
    → length (Tree.insert lex_ltb k v m) ≡ length m
unfolding Tree.insert Tree.lookup IsSorted
length-insert_known k v old [] o h = cc
length-insert_known k v old ((j, w) ∷ m) o h =
    ground (arith, h, length-insert_known k v old m o.1, lookup-above j k m o.0)

pub All-insert :
    (P : List ℕ → Type 0) (k : Bytes) (v : List ℕ) (m : Failures)
    → P v
    → All (λ (e : Bytes × List ℕ). P e.1) m
    → All (λ (e : Bytes × List ℕ). P e.1) (Tree.insert lex_ltb k v m)
unfolding Tree.insert
All-insert P k v [] p a = (p, tt)
All-insert P k v ((j, w) ∷ m) p (q, a) = elim (Bool-cases (lex_ltb k j)) [
  | inl y ↦ rw y (p, (q, a))
  | inr n ↦ elim (Bool-cases (lex_ltb j k)) [
    | inl y ↦ rw (n, y) (q, All-insert P k v m p a)
    | inr b ↦ rw (n, b) (p, a)
  ]
]

retain-IsBounded :
    (limit : ℕ) (keep : Bytes × List ℕ → Bool) (m : Failures)
    → IsBounded limit m
    → IsBounded limit (retain keep m)
retain-IsBounded limit keep m b = record {
  sorted = retain-IsSorted lex_ltb keep m b.sorted;
  few = omega (arith, length-retain keep m, b.few);
  short = All-retain (λ (e : Bytes × List ℕ). length e.1 ≤ limit) keep m b.short;
}

pub prune-IsBounded :
    (limit cutoff : ℕ) (m : Failures) → IsBounded limit m → IsBounded limit (prune cutoff m)
unfolding prune
prune-IsBounded limit cutoff m b = elim (Bool-cases (leb max_rate_limit_keys (length m))) [
  | inl y ↦ rw y (retain-IsBounded limit _ m b)
  | inr n ↦ rw n b
]

-- What a lookup finds is as short as all are.
pub lookup-short :
    (limit : ℕ) (k : Bytes) (v : List ℕ) (m : Failures)
    → All (λ (e : Bytes × List ℕ). length e.1 ≤ limit) m
    → Tree.lookup lex_ltb k m ≡ some v
    → length v ≤ limit
unfolding Tree.lookup
lookup-short limit k v [] a h = cc
lookup-short limit k v ((j, w) ∷ m) a h = ground (arith, h, lookup-short limit k v m a.1)

-- A failure of a key that the table has.
abbrev pub counted : ℕ → ℕ → List ℕ → ℕ → List ℕ
counted window now entries limit =
    let kept = expire entries (cutoff_at window now) in
    if ltb (length kept) limit then kept ++ now ∷ [] else kept

pub charge-known :
    (window now : ℕ) (m : Failures) (k : Bytes) (limit : ℕ) (entries : List ℕ)
    → Tree.lookup lex_ltb k m ≡ some entries
    → charge window now m (k, limit) ≡ Tree.insert lex_ltb k (counted window now entries limit) m
unfolding charge
charge-known window now m k limit entries e = rw (e, charge) refl

pub charge-new :
    (window now : ℕ) (m : Failures) (k : Bytes) (limit : ℕ)
    → Tree.lookup lex_ltb k m ≡ none
    → charge window now m (k, limit)
      ≡ (if ltb (length m) max_rate_limit_keys then Tree.insert lex_ltb k (now ∷ []) m else m)
unfolding charge
charge-new window now m k limit e = rw (e, charge) refl

charge-IsBounded :
    (limit window now : ℕ) (m : Failures) (key : Bytes × ℕ)
    → IsBounded limit m
    → key.1 ≤ limit
    → 0 < limit
    → IsBounded limit (charge window now m key)
charge-IsBounded limit window now m (k, own) b h z = elim (Option-cases (Tree.lookup lex_ltb k m)) [
  | inl n ↦ elim (Bool-cases (ltb (length m) max_rate_limit_keys)) [
    | inl y ↦
        rw (charge-new window now m k own n, y)
          (record {
            sorted = insert-IsSorted lex_ltb lex-IsOrder k (now ∷ []) m b.sorted;
            few = ground (arith, y, length-insert k (now ∷ []) m);
            short = All-insert (λ v. length v ≤ limit) k (now ∷ []) m (omega (arith, z)) b.short;
          })
    | inr f ↦ rw (charge-new window now m k own n, f) b
  ]
  | inr (entries, e) ↦
      let kept = expire entries (cutoff_at window now) in
      let after = counted window now entries own in
      let smaller = length-expire entries (cutoff_at window now) in
      let before = lookup-short limit k entries m b.short e in
      let not_longer : length after ≤ limit =
        ground (arith, smaller, before, h, length-append kept (now ∷ [])) in
      rw (charge-known window now m k own entries e) (record {
        sorted = insert-IsSorted lex_ltb lex-IsOrder k after m b.sorted;
        few = omega (arith, length-insert_known k after entries m b.sorted e, b.few);
        short = All-insert (λ v. length v ≤ limit) k after m not_longer b.short;
      })
]

-- Recording a failure keeps the table in key order with at most 10,000 keys, and every key with
-- at most as many failures as a limit above 0 that is not below either budget.
pub record_failure-IsBounded :
    (normal : Bytes → Bytes) (l : LoginRateLimiter) (now limit : ℕ) (username : Bytes)
    (source : Option Bytes)
    → 0 < limit
    → l.config.max_account_failures_per_window ≤ limit
    → l.config.max_source_failures_per_window ≤ limit
    → IsBounded limit l.failures
    → IsBounded limit (record_failure normal l now username source).failures
unfolding record_failure keys
record_failure-IsBounded normal l now limit username none z ha hs b =
    charge-IsBounded limit l.config.window now _ _ (prune-IsBounded limit _ l.failures b) ha z
record_failure-IsBounded normal l now limit username (some source) z ha hs b =
    charge-IsBounded limit l.config.window now _ _
      (charge-IsBounded limit l.config.window now _ _ (prune-IsBounded limit _ l.failures b) ha z)
      hs z
