-- ===== src/Auth/Sliding.antt =====
-- byoridb-graph/src/auth.rs: the failures of a key in the sliding window, told by their instants.
use byoridb.Base.{
  ℕ, ◌+◌, ◌≤◌, ◌≡◌, inl, inr, refl, List, [], ◌∷◌, ◌++◌, Option, none, some, some_inj, subst, All,
  length, ltb, leb, if◌then◌else◌, arith, Bool-cases, Option-cases,
}
use byoridb.Base.Ordered as Tree
use byoridb.Base.Ordered.{same}
use byoridb.Base.Lex.{lex_ltb}
use byoridb.Base.Members.{All-retain}
use byoridb.Raft.Types.{Bytes}
use byoridb.Auth.{
  LoginRateLimiter, Failures, expire, cutoff_at, prune, charge, keys, record_failure,
  max_rate_limit_keys,
}
use byoridb.Auth.Limits.{All-insert, counted, charge-known, charge-new}
use byoridb.Auth.Budgets.{recent}

abbrev or_empty : Option (List ℕ) → List ℕ
or_empty none = []
or_empty (some entries) = entries

-- The instants of the failures on record for a key.
abbrev pub recorded : Failures → Bytes → List ℕ
recorded failures key = or_empty (Tree.lookup lex_ltb key failures)

-- How many of the instants lie at most one window back.
abbrev pub count_within : ℕ → ℕ → List ℕ → ℕ
count_within window now [] = 0
count_within window now (t ∷ ts) =
    (if leb now (t + window) then 1 else 0) + count_within window now ts

-- The instants are in order, and none is later than `now`.
abbrev pub IsTimely : ℕ → List ℕ → Type 0
IsTimely now [] = Unit {0}
IsTimely now (t ∷ ts) = (t ≤ now) × All (λ u. t ≤ u) ts × IsTimely now ts

all_within :
    (window now t : ℕ) (ts : List ℕ)
    → now ≤ t + window
    → All (λ u. t ≤ u) ts
    → count_within window now ts ≡ length ts
all_within window now t [] h a = refl
all_within window now t (u ∷ ts) h a = ground (arith, all_within window now t ts h a.1, a.0)

length-expire_within :
    (window now : ℕ) (ts : List ℕ)
    → window ≤ now
    → IsTimely now ts
    → length (expire ts (cutoff_at window now)) ≡ count_within window now ts
unfolding expire
length-expire_within window now [] h o = refl
length-expire_within window now (t ∷ ts) h o = elim (Bool-cases (ltb t (cutoff_at window now))) [
  | inl old ↦ rw old (ground (arith, length-expire_within window now ts h o.2, old))
  | inr kept ↦ rw kept (ground (arith, all_within window now t ts, kept, o.1))
]

lookup-IsTimely :
    (now : ℕ) (k : Bytes) (v : List ℕ) (m : Failures)
    → All (λ (e : Bytes × List ℕ). IsTimely now e.1) m
    → Tree.lookup lex_ltb k m ≡ some v
    → IsTimely now v
unfolding Tree.lookup
lookup-IsTimely now k v [] a h = cc
lookup-IsTimely now k v ((j, w) ∷ m) a h = elim (Bool-cases (same lex_ltb j k)) [
  | inl y ↦ let e : some w ≡ some v = rw y at h in subst (IsTimely now) (some_inj e) a.0
  | inr n ↦ let e : Tree.lookup lex_ltb k m ≡ some v = rw n at h in lookup-IsTimely now k v m a.1 e
]

pub recent_lem :
    (window now : ℕ) (failures : Failures) (key : Bytes)
    → window ≤ now
    → All (λ (e : Bytes × List ℕ). IsTimely now e.1) failures
    → recent window now failures key ≡ count_within window now (recorded failures key)
recent_lem window now failures key h a = elim (Option-cases (Tree.lookup lex_ltb key failures)) [
  | inl n ↦ rw n refl
  | inr (entries, e) ↦
      rw e
        (length-expire_within window now entries h (lookup-IsTimely now key entries failures a e))
]

-- Time goes on, and instants are removed and added.
IsTimely-later : (now later : ℕ) (ts : List ℕ) → now ≤ later → IsTimely now ts → IsTimely later ts
IsTimely-later now later [] h o = tt
IsTimely-later now later (t ∷ ts) h o = (omega (arith, o.0), o.1, IsTimely-later now later ts h o.2)

expire-IsTimely : (now cutoff : ℕ) (ts : List ℕ) → IsTimely now ts → IsTimely now (expire ts cutoff)
unfolding expire
expire-IsTimely now cutoff [] o = tt
expire-IsTimely now cutoff (t ∷ ts) o = elim (Bool-cases (ltb t cutoff)) [
  | inl old ↦ rw old (expire-IsTimely now cutoff ts o.2)
  | inr kept ↦ rw kept o
]

push-All :
    (t now : ℕ) (ts : List ℕ) → t ≤ now → All (λ u. t ≤ u) ts → All (λ u. t ≤ u) (ts ++ now ∷ [])
push-All t now [] h a = (h, tt)
push-All t now (u ∷ ts) h a = (a.0, push-All t now ts h a.1)

push-IsTimely : (now : ℕ) (ts : List ℕ) → IsTimely now ts → IsTimely now (ts ++ now ∷ [])
push-IsTimely now [] o = (omega arith, tt, tt)
push-IsTimely now (t ∷ ts) o = (o.0, push-All t now ts o.0 o.1, push-IsTimely now ts o.2)

abbrev pub AllTimely : ℕ → Failures → Type 0
AllTimely now failures = All (λ (e : Bytes × List ℕ). IsTimely now e.1) failures

AllTimely-later : (now later : ℕ) (m : Failures) → now ≤ later → AllTimely now m → AllTimely later m
AllTimely-later now later [] h a = tt
AllTimely-later now later (e ∷ m) h a =
    (IsTimely-later now later e.1 h a.0, AllTimely-later now later m h a.1)

prune-AllTimely : (now cutoff : ℕ) (m : Failures) → AllTimely now m → AllTimely now (prune cutoff m)
unfolding prune
prune-AllTimely now cutoff m a = elim (Bool-cases (leb max_rate_limit_keys (length m))) [
  | inl y ↦ rw y (All-retain (λ (e : Bytes × List ℕ). IsTimely now e.1) _ m a)
  | inr n ↦ rw n a
]

counted-IsTimely :
    (window now : ℕ) (entries : List ℕ) (limit : ℕ)
    → IsTimely now entries
    → IsTimely now (counted window now entries limit)
counted-IsTimely window now entries limit o =
    let kept = expire entries (cutoff_at window now) in
    let k = expire-IsTimely now (cutoff_at window now) entries o in
    elim (Bool-cases (ltb (length kept) limit)) [
      | inl y ↦ rw y (push-IsTimely now kept k)
      | inr n ↦ rw n k
    ]

charge-AllTimely :
    (window now : ℕ) (m : Failures) (key : Bytes × ℕ)
    → AllTimely now m
    → AllTimely now (charge window now m key)
charge-AllTimely window now m (k, limit) a = elim (Option-cases (Tree.lookup lex_ltb k m)) [
  | inl n ↦ elim (Bool-cases (ltb (length m) max_rate_limit_keys)) [
    | inl y ↦
        rw (charge-new window now m k limit n, y)
          (All-insert (IsTimely now) k (now ∷ []) m (push-IsTimely now [] tt) a)
    | inr f ↦ rw (charge-new window now m k limit n, f) a
  ]
  | inr (entries, e) ↦ rw (charge-known window now m k limit entries e) (
      All-insert (IsTimely now) k (counted window now entries limit) m
        (counted-IsTimely window now entries limit (lookup-IsTimely now k entries m a e)) a)
]

-- Recording a failure later keeps the instants of every key in order, none later than that moment.
pub record_failure-AllTimely :
    (normal : Bytes → Bytes) (l : LoginRateLimiter) (before now : ℕ) (username : Bytes)
    (source : Option Bytes)
    → before ≤ now
    → AllTimely before l.failures
    → AllTimely now (record_failure normal l now username source).failures
unfolding record_failure keys
record_failure-AllTimely normal l before now username none h a =
    charge-AllTimely l.config.window now _ _
      (prune-AllTimely now _ l.failures (AllTimely-later before now l.failures h a))
record_failure-AllTimely normal l before now username (some source) h a =
    charge-AllTimely l.config.window now _ _ (
      charge-AllTimely l.config.window now _ _
        (prune-AllTimely now _ l.failures (AllTimely-later before now l.failures h a)))
