-- ===== src/Base/Lists.antt =====
-- Lists measured and indexed by native numbers, under the library's names, and predicates on them.
use Prim.Native.Nat.{ℕ, zero, suc, ◌+◌, ◌-◌, ◌/◌, ◌≤◌, ◌<◌, min}
use mathlib.Core.Path.{◌≡◌, refl, ap, ◌∙◌}
use mathlib.Core.Bool.{Bool, true, false}
use mathlib.Core.List.{List, [], ◌∷◌, ◌++◌}
use mathlib.Core.Option.{Option, none, some}
use native.Mathlib.Omega.{arith}
use byoridb.Base.Tests.{if◌then◌else◌, ◌==◌}

module _ {ℓ} {A : Type ℓ} where
  abbrev pub length : List A → ℕ
  length [] = 0
  length (x ∷ xs) = suc (length xs)

  abbrev pub is_empty : List A → Bool
  is_empty [] = true
  is_empty (x ∷ xs) = false

  abbrev pub get_elem? : List A → ℕ → Option A
  get_elem? [] i = none
  get_elem? (x ∷ xs) zero = some x
  get_elem? (x ∷ xs) (suc i) = get_elem? xs i

  abbrev pub take : ℕ → List A → List A
  take zero xs = []
  take (suc n) [] = []
  take (suc n) (x ∷ xs) = x ∷ take n xs

  abbrev pub drop : ℕ → List A → List A
  drop zero xs = xs
  drop (suc n) [] = []
  drop (suc n) (x ∷ xs) = drop n xs

  abbrev pub last? : List A → Option A
  last? [] = none
  last? (x ∷ []) = some x
  last? (x ∷ y ∷ xs) = last? (y ∷ xs)

  -- `Vec::retain`, and `filter` on an iterator.
  abbrev pub retain : (A → Bool) → List A → List A
  retain keep [] = []
  retain keep (x ∷ xs) = let rest = retain keep xs in if keep x then x ∷ rest else rest

  pub drop-nil : (n : ℕ) → drop n [] ≡ []
  drop-nil zero = refl
  drop-nil (suc n) = refl

  pub take-nil : (n : ℕ) → take n [] ≡ []
  take-nil zero = refl
  take-nil (suc n) = refl

  pub length-append : (xs ys : List A) → length (xs ++ ys) ≡ length xs + length ys
  length-append [] ys = omega arith
  length-append (x ∷ xs) ys = omega (arith, length-append xs ys)

  pub length-take : (n : ℕ) (xs : List A) → length (take n xs) ≡ min n (length xs)
  length-take zero xs = omega arith
  length-take (suc n) [] = omega arith
  length-take (suc n) (x ∷ xs) = omega (arith, length-take n xs)

  pub length-drop : (n : ℕ) (xs : List A) → length (drop n xs) ≡ length xs - n
  length-drop zero xs = omega arith
  length-drop (suc n) [] = omega arith
  length-drop (suc n) (x ∷ xs) = omega (arith, length-drop n xs)

pub take-append {ℓ} : {A : Type ℓ} (xs ys : List A) → take (length xs) (xs ++ ys) ≡ xs
take-append [] ys = refl
take-append (x ∷ xs) ys = ap (◌∷◌ x) (take-append xs ys)

pub drop-append {ℓ} : {A : Type ℓ} (xs ys : List A) → drop (length xs) (xs ++ ys) ≡ ys
drop-append [] ys = refl
drop-append (x ∷ xs) ys = drop-append xs ys

pub take_prefix {ℓ} : {A : Type ℓ} (n : ℕ) (xs ys : List A) → length xs ≡ n → take n (xs ++ ys) ≡ xs
take_prefix n xs ys e = rw (← e) (take-append xs ys)

pub drop_prefix {ℓ} : {A : Type ℓ} (n : ℕ) (xs ys : List A) → length xs ≡ n → drop n (xs ++ ys) ≡ ys
drop_prefix n xs ys e = rw (← e) (drop-append xs ys)

pub take_all {ℓ} : {A : Type ℓ} (n : ℕ) (xs : List A) → length xs ≤ n → take n xs ≡ xs
take_all zero [] h = refl
take_all zero (x ∷ xs) h = absurd (omega arith)
take_all (suc n) [] h = refl
take_all (suc n) (x ∷ xs) h = ap (◌∷◌ x) (take_all n xs (omega arith))

pub drop_all {ℓ} : {A : Type ℓ} (n : ℕ) (xs : List A) → length xs ≤ n → drop n xs ≡ []
drop_all zero [] h = refl
drop_all zero (x ∷ xs) h = absurd (omega arith)
drop_all (suc n) [] h = refl
drop_all (suc n) (x ∷ xs) h = drop_all n xs (omega arith)

-- The slices of `n` elements, the last one shorter; a slice is not empty, so that the length of the
-- list is rounds enough.
chunk_rounds {ℓ} : {A : Type ℓ} → ℕ → ℕ → List A → List (List A)
chunk_rounds zero n xs = []
chunk_rounds (suc rounds) n [] = []
chunk_rounds (suc rounds) n (x ∷ xs) = take n (x ∷ xs) ∷ chunk_rounds rounds n (drop n (x ∷ xs))

pub chunks {ℓ} : {A : Type ℓ} → ℕ → List A → List (List A)
unfolding chunk_rounds
chunks n xs = chunk_rounds (length xs) n xs

abbrev pub concat {ℓ} : {A : Type ℓ} → List (List A) → List A
concat [] = []
concat (xs ∷ xss) = xs ++ concat xss

pub take-drop {ℓ} : {A : Type ℓ} (n : ℕ) (xs : List A) → take n xs ++ drop n xs ≡ xs
take-drop zero xs = refl
take-drop (suc n) [] = refl
take-drop (suc n) (x ∷ xs) = ap (◌∷◌ x) (take-drop n xs)

concat-chunk_rounds {ℓ} :
    {A : Type ℓ} (rounds n : ℕ) (xs : List A)
    → 0 < n
    → length xs ≤ rounds
    → concat (chunk_rounds rounds n xs) ≡ xs
unfolding chunk_rounds
concat-chunk_rounds zero n [] h l = refl
concat-chunk_rounds zero n (x ∷ xs) h l = absurd (omega arith)
concat-chunk_rounds (suc rounds) n [] h l = refl
concat-chunk_rounds (suc rounds) n (x ∷ xs) h l =
    ap (λ t. take n (x ∷ xs) ++ t)
      (concat-chunk_rounds rounds n (drop n (x ∷ xs)) h (omega (arith, length-drop n (x ∷ xs))))
    ∙ take-drop n (x ∷ xs)

pub concat-chunks {ℓ} : {A : Type ℓ} (n : ℕ) (xs : List A) → 0 < n → concat (chunks n xs) ≡ xs
unfolding chunks
concat-chunks n xs h = concat-chunk_rounds (length xs) n xs h (omega arith)

length-chunk_rounds {ℓ} :
    {A : Type ℓ} (rounds n : ℕ) (xs : List A)
    → n ≡ 65536
    → length xs ≤ rounds
    → length (chunk_rounds rounds n xs) ≡ (length xs + 65535) / 65536
unfolding chunk_rounds
length-chunk_rounds zero n [] h l = omega arith
length-chunk_rounds zero n (x ∷ xs) h l = absurd (omega arith)
length-chunk_rounds (suc rounds) n [] h l = omega arith
length-chunk_rounds (suc rounds) n (x ∷ xs) h l =
    let d = length-drop n (x ∷ xs) in
    let ih = length-chunk_rounds rounds n (drop n (x ∷ xs)) h (omega (arith, d)) in
    omega (arith, d, ih)

pub length-chunks {ℓ} :
    {A : Type ℓ} (n : ℕ) (xs : List A)
    → n ≡ 65536
    → length (chunks n xs) ≡ (length xs + 65535) / 65536
unfolding chunks
length-chunks n xs h = length-chunk_rounds (length xs) n xs h (omega arith)

abbrev pub contains : List ℕ → ℕ → Bool
contains [] a = false
contains (x ∷ xs) a = let rest = contains xs a in if x == a then true else rest

-- A predicate by recursion computes to tuples, which the tactics read and build.
abbrev pub All {ℓ κ} : {A : Type ℓ} → (A → Type κ) → List A → Type κ
All P [] = Unit
All P (x ∷ xs) = P x × All P xs

pub All-append {ℓ κ} :
    {A : Type ℓ} (P : A → Type κ) (xs ys : List A) → All P xs → All P ys → All P (xs ++ ys)
All-append P [] ys hx hy = hy
All-append P (x ∷ xs) ys hx hy = (hx.0, All-append P xs ys hx.1 hy)
