-- ===== src/Base/Lex.antt =====
-- The order of byte strings, `starts_with`, and prefix scans of a sorted table of byte strings.
use Prim.Native.Nat.{ℕ}
use mathlib.Core.Path.{◌≡◌, refl}
use mathlib.Core.Bool.{Bool, true, false, not, ◌&&◌}
use mathlib.Core.List.{List, [], ◌∷◌, ◌++◌}
use native.Mathlib.Omega.{arith}
use byoridb.Base.Tests.{if◌then◌else◌, ◌==◌, ltb}
use byoridb.Base.Lists.{retain}
use byoridb.Base.Ordered.{IsOrder, range_from, IsSorted, AllAbove}

unfoldable pub lex_ltb : List ℕ → List ℕ → Bool
lex_ltb [] [] = false
lex_ltb [] (y ∷ ys) = true
lex_ltb (x ∷ xs) [] = false
lex_ltb (x ∷ xs) (y ∷ ys) =
    let rest = lex_ltb xs ys in if ltb x y then true else if ltb y x then false else rest

lex_irrefl : (a : List ℕ) → lex_ltb a a ≡ false
unfolding lex_ltb
lex_irrefl [] = refl
lex_irrefl (x ∷ xs) = ground (arith, lex_irrefl xs)

lex_trans : (a b c : List ℕ) → lex_ltb a b ≡ true → lex_ltb b c ≡ true → lex_ltb a c ≡ true
unfolding lex_ltb
lex_trans [] [] c h k = cc
lex_trans [] (y ∷ ys) [] h k = cc
lex_trans [] (y ∷ ys) (z ∷ zs) h k = refl
lex_trans (x ∷ xs) [] c h k = cc
lex_trans (x ∷ xs) (y ∷ ys) [] h k = cc
lex_trans (x ∷ xs) (y ∷ ys) (z ∷ zs) h k = ground (arith, lex_trans xs ys zs)

lex_connected : (a b : List ℕ) → lex_ltb a b ≡ false → lex_ltb b a ≡ false → a ≡ b
unfolding lex_ltb
lex_connected [] [] h k = refl
lex_connected [] (y ∷ ys) h k = cc
lex_connected (x ∷ xs) [] h k = cc
lex_connected (x ∷ xs) (y ∷ ys) h k = ground (arith, lex_connected xs ys)

pub lex-IsOrder : IsOrder lex_ltb
lex-IsOrder = record { irrefl = lex_irrefl; trans = lex_trans; connected = lex_connected }

unfoldable pub starts_with : List ℕ → List ℕ → Bool
starts_with [] k = true
starts_with (x ∷ p) [] = false
starts_with (x ∷ p) (y ∷ k) = x == y && starts_with p k

-- What starts with `p` is not below `p`.
pub starts_with-not-below : (p k : List ℕ) → starts_with p k ≡ true → lex_ltb k p ≡ false
unfolding starts_with lex_ltb
starts_with-not-below [] [] h = refl
starts_with-not-below [] (y ∷ k) h = refl
starts_with-not-below (x ∷ p) [] h = cc
starts_with-not-below (x ∷ p) (y ∷ k) h = ground (arith, starts_with-not-below p k)

pub starts_with-append : (p k : List ℕ) → starts_with p (p ++ k) ≡ true
unfolding starts_with
starts_with-append [] k = refl
starts_with-append (x ∷ p) k = ground (arith, starts_with-append p k)

pub starts_with_self : (p : List ℕ) → starts_with p p ≡ true
unfolding starts_with
starts_with_self [] = refl
starts_with_self (x ∷ p) = ground (arith, starts_with_self p)

-- Between two strings that start with `p` every string does.
pub starts_with-between :
    (p lo a b : List ℕ)
    → starts_with p lo ≡ true
    → starts_with p b ≡ true
    → lex_ltb a lo ≡ false
    → lex_ltb b a ≡ false
    → starts_with p a ≡ true
unfolding starts_with lex_ltb
starts_with-between [] lo a b s t h k = refl
starts_with-between (x ∷ p) [] a b s t h k = cc
starts_with-between (x ∷ p) (l ∷ lo) a [] s t h k = cc
starts_with-between (x ∷ p) (l ∷ lo) [] (y ∷ b) s t h k = cc
starts_with-between (x ∷ p) (l ∷ lo) (z ∷ a) (y ∷ b) s t h k =
    ground (arith, starts_with-between p lo a b)

unfoldable pub take_while {ℓ} : {A : Type ℓ} → (A → Bool) → List A → List A
take_while keep [] = []
take_while keep (x ∷ xs) = let rest = take_while keep xs in if keep x then x ∷ rest else []

-- The keys from `lo` on that start with `p`.
abbrev pub in_range : {V : Type 0} → List ℕ → List ℕ → List ℕ × V → Bool
in_range p lo e = starts_with p e.0 && not (lex_ltb e.0 lo)

module _ {V : Type 0} (p lo : List ℕ) (s : starts_with p lo ≡ true) where
  beyond :
      (k : List ℕ) (entries : List (List ℕ × V))
      → lex_ltb k lo ≡ false
      → starts_with p k ≡ false
      → AllAbove lex_ltb k entries
      → retain (in_range p lo) entries ≡ []
  beyond k [] h n a = refl
  beyond k ((key, value) ∷ entries) h n a = ground (
    arith,
    beyond k entries h n a.1,
    starts_with-between p lo k key,
    a.0,
    lex_trans k key k,
    lex_irrefl k,
  )

  -- The scan stops at the first key that does not start with `p`, and misses none that does.
  pub scan_lem :
      (entries : List (List ℕ × V))
      → IsSorted lex_ltb entries
      → take_while (λ e. starts_with p e.0) (range_from lex_ltb lo entries)
        ≡ retain (in_range p lo) entries
  unfolding take_while range_from IsSorted
  scan_lem [] o = refl
  scan_lem ((key, value) ∷ entries) o = ground (arith, scan_lem entries o.1, beyond key entries)
