-- ===== src/Raft/Log/Reads.antt =====
-- What `get` and `term` of log.rs read after each change of the log.
use byoridb.Base.{
  drop_all, take_all, ℕ, zero, suc, ◌+◌, ◌-◌, ◌≤◌, ◌<◌, ◌≡◌, ◌≢◌, refl, List, [], ◌∷◌, ◌++◌, none,
  inl, inr, Bool-cases, some, length, get_elem?, take, drop, ltb, if◌then◌else◌, u64_mod,
  add64_exact, sub64_exact, arith, length-take, length-drop,
}
use byoridb.Raft.Types.{LogEntry}
use byoridb.Raft.Log.Defs.{RaftLog, last_index, get, truncate, compact}

-- The indexes of consecutive entries.
abbrev pub IsIndexed : ℕ → List LogEntry → Type 0
IsIndexed i [] = Unit {0}
IsIndexed i (e ∷ es) = (e.index ≡ i) × IsIndexed (suc i) es

pub record IsWf (l : RaftLog) : Type 0 where
  pub first_pos : 1 ≤ l.first_index
  pub bounded : l.first_index + length l.entries < u64_mod
  pub indexed : IsIndexed l.first_index l.entries

abbrev pub Fits : RaftLog → Type 0
Fits l = (1 ≤ l.first_index) × (l.first_index + length l.entries < u64_mod)

pub last_index_lem : (l : RaftLog) → Fits l → last_index l + 1 ≡ l.first_index + length l.entries
unfolding last_index
last_index_lem l h = ground (
  arith,
  add64_exact l.first_index (length l.entries),
  sub64_exact (l.first_index + length l.entries) 1,
)

pub get_elem?-beyond {ℓ} :
    {A : Type ℓ} (xs : List A) (i : ℕ) → length xs ≤ i → get_elem? xs i ≡ none
get_elem?-beyond [] i h = refl
get_elem?-beyond (x ∷ xs) zero h = absurd (omega arith)
get_elem?-beyond (x ∷ xs) (suc i) h = get_elem?-beyond xs i (omega arith)

-- `get` is indexing from `first_index`.
pub get-below : (l : RaftLog) (i : ℕ) → i < l.first_index → get l i ≡ none
unfolding get
get-below l i h = ground arith

pub get-at :
    (l : RaftLog) (i : ℕ)
    → Fits l
    → l.first_index ≤ i
    → get l i ≡ get_elem? l.entries (i - l.first_index)
unfolding get
get-at l i w h = ground (
  arith,
  last_index_lem l w,
  get_elem?-beyond l.entries (i - l.first_index),
  sub64_exact i l.first_index,
)

pub get-above : (l : RaftLog) (i : ℕ) → last_index l < i → get l i ≡ none
unfolding get
get-above l i h = ground arith

get_elem?-ne-none {ℓ} : {A : Type ℓ} (xs : List A) (i : ℕ) → i < length xs → get_elem? xs i ≢ none
get_elem?-ne-none [] i h = absurd (omega arith)
get_elem?-ne-none (x ∷ xs) zero h = λ e. cc
get_elem?-ne-none (x ∷ xs) (suc i) h = get_elem?-ne-none xs i (omega arith)

pub get-found :
    (l : RaftLog) (i : ℕ) → Fits l → l.first_index ≤ i → i ≤ last_index l → get l i ≢ none
get-found l i w f h =
    rw (get-at l i w f)
      (get_elem?-ne-none l.entries (i - l.first_index) (omega (arith, last_index_lem l w)))

get_elem?-take {ℓ} :
    {A : Type ℓ} (n i : ℕ) (xs : List A)
    → get_elem? (take n xs) i ≡ (if ltb i n then get_elem? xs i else none)
get_elem?-take zero i xs = ground arith
get_elem?-take (suc n) i [] = ground arith
get_elem?-take (suc n) zero (x ∷ xs) = ground arith
get_elem?-take (suc n) (suc i) (x ∷ xs) = ground (arith, get_elem?-take n i xs)

pub get_elem?-drop {ℓ} :
    {A : Type ℓ} (n i : ℕ) (xs : List A) → get_elem? (drop n xs) i ≡ get_elem? xs (n + i)
get_elem?-drop zero i xs = ground arith
get_elem?-drop (suc n) i [] = ground arith
get_elem?-drop (suc n) i (x ∷ xs) = ground (arith, get_elem?-drop n i xs)

pub get_elem?-append {ℓ} :
    {A : Type ℓ} (xs ys : List A) (i : ℕ)
    → get_elem? (xs ++ ys) i
      ≡ (if ltb i (length xs) then get_elem? xs i else get_elem? ys (i - length xs))
get_elem?-append [] ys i = ground arith
get_elem?-append (x ∷ xs) ys zero = ground arith
get_elem?-append (x ∷ xs) ys (suc i) = ground (arith, get_elem?-append xs ys i)

-- An entry that `get` returns bears the index it was asked for.
IsIndexed-get_elem? :
    (i k : ℕ) (es : List LogEntry) (e : LogEntry)
    → IsIndexed i es
    → get_elem? es k ≡ some e
    → e.index ≡ i + k
IsIndexed-get_elem? i k [] e h g = cc
IsIndexed-get_elem? i zero (x ∷ es) e h g = ground arith
IsIndexed-get_elem? i (suc k) (x ∷ es) e h g =
    omega (arith, IsIndexed-get_elem? (suc i) k es e h.1 g)

pub get_index : (l : RaftLog) (i : ℕ) (e : LogEntry) → IsWf l → get l i ≡ some e → e.index ≡ i
get_index l i e w g = ground (
  arith,
  get-below l i,
  get-at l i (w.first_pos, w.bounded),
  IsIndexed-get_elem? l.first_index (i - l.first_index) l.entries e w.indexed,
)

pub get_lem :
    (l : RaftLog) (i : ℕ)
    → Fits l
    → get l i ≡ (if ltb i l.first_index then none else get_elem? l.entries (i - l.first_index))
get_lem l i w = ground (arith, get-below l i, get-at l i w)

pub take_zero {ℓ} : {A : Type ℓ} (n : ℕ) (xs : List A) → n ≡ 0 → take n xs ≡ []
take_zero zero xs h = refl
take_zero (suc n) xs h = absurd (omega arith)

-- `truncate` keeps the entries below `k`, in each of its three branches.
pub truncate_lem :
    (l : RaftLog) (k : ℕ)
    → Fits l
    → truncate l k ≡ record l { entries = take (k - l.first_index) l.entries }
unfolding truncate
truncate_lem l k w = ground (
  arith,
  last_index_lem l w,
  take_zero (k - l.first_index) l.entries,
  take_all (k - l.first_index) l.entries,
  sub64_exact k l.first_index,
)

pub compact_lem :
    (l : RaftLog) (k t : ℕ)
    → Fits l
    → l.first_index ≤ k
    → k + 1 < u64_mod
    → compact l k t ≡ record {
      entries = drop (k + 1 - l.first_index) l.entries;
      first_index = k + 1;
      snapshot_term = t;
    }
unfolding compact
compact_lem l k t w h b = ground (
  arith,
  sub64_exact k l.first_index,
  add64_exact (k - l.first_index) 1,
  add64_exact k 1,
  drop_all (k + 1 - l.first_index) l.entries,
)

pub truncate-Fits : (l : RaftLog) (k : ℕ) → Fits l → Fits (truncate l k)
truncate-Fits l k w =
    rw (truncate_lem l k w) (ground (arith, length-take (k - l.first_index) l.entries))

pub compact-Fits : (l : RaftLog) (k t : ℕ) → Fits l → k + 1 < u64_mod → Fits (compact l k t)
compact-Fits l k t w b = elim (Bool-cases (ltb k l.first_index)) [
  | inl below ↦ unfold compact in rw below w
  | inr above ↦
      rw (compact_lem l k t w (ground arith) b)
        (ground (arith, length-drop (k + 1 - l.first_index) l.entries))
]

-- After a truncation at `k` of a log whose indexes fit, the entries below `k` are found as before
-- and no other.
pub get-truncate :
    (l : RaftLog) (k i : ℕ) → Fits l → get (truncate l k) i ≡ (if ltb i k then get l i else none)
get-truncate l k i w =
    rw (get_lem (truncate l k) i (truncate-Fits l k w), truncate_lem l k w, get_lem l i w)
      (ground (arith, get_elem?-take (k - l.first_index) (i - l.first_index) l.entries))
