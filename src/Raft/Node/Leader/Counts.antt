-- ===== src/Raft/Node/Leader/Counts.antt =====
-- byoridb-storage/src/raft/node.rs, `try_advance_commit_index`: the sorted indexes and the one chosen of them.
use byoridb.Base.{
  ℕ, zero, suc, ◌+◌, ◌-◌, ◌%◌, ◌≤◌, ◌<◌, ◌≡◌, ◌≢◌, inl, inr, refl, ap, ◌∙◌, List, [], ◌∷◌, none,
  some, Bool-cases, length, get_elem?, leb, if◌then◌else◌, arith, u64_mod, sub64,
}
use byoridb.Raft.Node.Leader.{insert_sorted, sort_unstable, majority_index}

-- How many of the indices are at least `v`.
abbrev pub count_from : ℕ → List ℕ → ℕ
count_from v [] = 0
count_from v (x ∷ xs) = if leb v x then suc (count_from v xs) else count_from v xs

abbrev AllFrom : ℕ → List ℕ → Type 0
AllFrom v [] = Unit {0}
AllFrom v (x ∷ xs) = (v ≤ x) × AllFrom v xs

abbrev IsSorted : List ℕ → Type 0
IsSorted [] = Unit {0}
IsSorted (x ∷ xs) = AllFrom x xs × IsSorted xs

AllFrom-le : (u v : ℕ) (xs : List ℕ) → u ≤ v → AllFrom v xs → AllFrom u xs
AllFrom-le u v [] h a = tt
AllFrom-le u v (x ∷ xs) h a = (omega arith, AllFrom-le u v xs h a.1)

insert_sorted-AllFrom :
    (v x : ℕ) (xs : List ℕ) → v ≤ x → AllFrom v xs → AllFrom v (insert_sorted x xs)
unfolding insert_sorted
insert_sorted-AllFrom v x [] h a = (h, tt)
insert_sorted-AllFrom v x (y ∷ ys) h a = ground (arith, insert_sorted-AllFrom v x ys h a.1)

insert_sorted-IsSorted : (x : ℕ) (xs : List ℕ) → IsSorted xs → IsSorted (insert_sorted x xs)
unfolding insert_sorted
insert_sorted-IsSorted x [] s = (tt, tt)
insert_sorted-IsSorted x (y ∷ ys) s = elim (Bool-cases (leb x y)) [
  | inl le ↦ rw le ((ground arith, AllFrom-le x y ys (ground arith) s.0), s)
  | inr gt ↦
      rw gt (insert_sorted-AllFrom y x ys (ground arith) s.0, insert_sorted-IsSorted x ys s.1)
]

sort_unstable-IsSorted : (xs : List ℕ) → IsSorted (sort_unstable xs)
unfolding sort_unstable
sort_unstable-IsSorted [] = tt
sort_unstable-IsSorted (x ∷ xs) =
    insert_sorted-IsSorted x (sort_unstable xs) (sort_unstable-IsSorted xs)

count_from-insert_sorted :
    (v x : ℕ) (xs : List ℕ) → count_from v (insert_sorted x xs) ≡ count_from v (x ∷ xs)
unfolding insert_sorted
count_from-insert_sorted v x [] = refl
count_from-insert_sorted v x (y ∷ ys) = ground (arith, count_from-insert_sorted v x ys)

count_from-sort_unstable : (v : ℕ) (xs : List ℕ) → count_from v (sort_unstable xs) ≡ count_from v xs
unfolding sort_unstable
count_from-sort_unstable v [] = refl
count_from-sort_unstable v (x ∷ xs) =
    ground (arith, count_from-insert_sorted v x (sort_unstable xs), count_from-sort_unstable v xs)

length-insert_sorted : (x : ℕ) (xs : List ℕ) → length (insert_sorted x xs) ≡ suc (length xs)
unfolding insert_sorted
length-insert_sorted x [] = refl
length-insert_sorted x (y ∷ ys) = ground (arith, length-insert_sorted x ys)

length-sort_unstable : (xs : List ℕ) → length (sort_unstable xs) ≡ length xs
unfolding sort_unstable
length-sort_unstable [] = refl
length-sort_unstable (x ∷ xs) =
    length-insert_sorted x (sort_unstable xs) ∙ ap suc (length-sort_unstable xs)

count_from_all : (v : ℕ) (xs : List ℕ) → AllFrom v xs → count_from v xs ≡ length xs
count_from_all v [] a = refl
count_from_all v (x ∷ xs) a = ground (arith, count_from_all v xs a.1)

-- In a sorted list, the item at `i` and all behind it are at least that item.
count_from_sorted :
    (xs : List ℕ) (i v : ℕ)
    → IsSorted xs
    → get_elem? xs i ≡ some v
    → length xs ≤ count_from v xs + i
count_from_sorted [] i v s e = cc
count_from_sorted (x ∷ xs) zero v s e = ground (arith, count_from_all x xs s.0)
count_from_sorted (x ∷ xs) (suc i) v s e = ground (arith, count_from_sorted xs i v s.1 e)

get_elem?-some-lt {ℓ} :
    {A : Type ℓ} (xs : List A) (i : ℕ) (v : A) → get_elem? xs i ≡ some v → i < length xs
get_elem?-some-lt [] i v e = cc
get_elem?-some-lt (x ∷ xs) zero v e = omega arith
get_elem?-some-lt (x ∷ xs) (suc i) v e = omega (arith, get_elem?-some-lt xs i v e)

get_elem?_total {ℓ} : {A : Type ℓ} (xs : List A) (i : ℕ) → i < length xs → get_elem? xs i ≢ none
get_elem?_total [] i h = absurd (omega arith)
get_elem?_total (x ∷ xs) zero h = λ e. cc
get_elem?_total (x ∷ xs) (suc i) h = get_elem?_total xs i (omega arith)

-- The index chosen from the list stands in it with at least `m` indices no smaller.
pub majority_index_quorum :
    (xs : List ℕ) (m v : ℕ)
    → 0 < m
    → m < u64_mod
    → length xs < u64_mod
    → majority_index xs m ≡ some v
    → m ≤ count_from v xs
unfolding majority_index sub64
majority_index_quorum xs m v pos small fits e =
    let i = (length (sort_unstable xs) + u64_mod - m) % u64_mod in
    omega (
      arith,
      count_from_sorted (sort_unstable xs) i v (sort_unstable-IsSorted xs) e,
      get_elem?-some-lt (sort_unstable xs) i v e,
      count_from-sort_unstable v xs,
      length-sort_unstable xs,
    )

pub majority_index_total :
    (xs : List ℕ) (m : ℕ) → 0 < m → m ≤ length xs → length xs < u64_mod → majority_index xs m ≢ none
unfolding majority_index sub64
majority_index_total xs m pos h fits =
    get_elem?_total (sort_unstable xs) ((length (sort_unstable xs) + u64_mod - m) % u64_mod)
      (omega (arith, length-sort_unstable xs))
