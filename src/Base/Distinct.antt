-- ===== src/Base/Distinct.antt =====
-- Tables that hold no key twice, as a `HashMap` does, and the keys whose values pass a test.
use Prim.Native.Nat.{ℕ, ◌+◌, ◌≤◌}
use mathlib.Core.Path.{◌≡◌, refl, sym, ◌∙◌}
use mathlib.Core.Bool.{Bool, true, false}
use mathlib.Core.List.{List, [], ◌∷◌}
use mathlib.Core.Option.{Option, none, some}
use native.Mathlib.Omega.{arith}
use byoridb.Base.Tests.{if◌then◌else◌}
use byoridb.Base.Lists.{All, length, contains}
use byoridb.Base.Maps.{HashMap, lookup, insert, remove, lookup-insert, lookup-remove}

-- No number stands in the list twice.
abbrev pub NoRepeat : List ℕ → Type 0
NoRepeat [] = Unit {0}
NoRepeat (x ∷ xs) = (contains xs x ≡ false) × NoRepeat xs

pub All-contains :
    (P : ℕ → Type 0) (xs : List ℕ) → ((j : ℕ) → contains xs j ≡ true → P j) → All P xs
All-contains P [] h = tt
All-contains P (x ∷ xs) h = (h x (ground arith), All-contains P xs (λ j c. h j (ground (arith, c))))

module _ {V : Type 0} where
  unfoldable pub AreDistinct : HashMap V → Type 0
  AreDistinct [] = Unit
  AreDistinct ((i, s) ∷ m) = (lookup i m ≡ none) × AreDistinct m

  pub insert-AreDistinct :
      (i : ℕ) (s : V) (m : HashMap V) → AreDistinct m → AreDistinct (insert i s m)
  unfolding AreDistinct insert lookup
  insert-AreDistinct i s [] d = ground arith
  insert-AreDistinct i s ((j, t) ∷ m) d =
      ground (arith, insert-AreDistinct i s m d.1, lookup-insert i j s m)

  pub remove-AreDistinct : (i : ℕ) (m : HashMap V) → AreDistinct m → AreDistinct (remove i m)
  unfolding AreDistinct remove
  remove-AreDistinct i [] d = ground arith
  remove-AreDistinct i ((j, t) ∷ m) d =
      ground (arith, remove-AreDistinct i m d.1, lookup-remove i j m)

  -- Whether what a lookup finds passes the test.
  abbrev pub hit : (V → Bool) → Option V → Bool
  hit test none = false
  hit test (some s) = test s

  abbrev pub keys_where : (V → Bool) → HashMap V → List ℕ
  keys_where test [] = []
  keys_where test ((i, s) ∷ m) = if test s then i ∷ keys_where test m else keys_where test m

  pub contains-keys_where :
      (test : V → Bool) (m : HashMap V)
      → AreDistinct m
      → (j : ℕ) → contains (keys_where test m) j ≡ hit test (lookup j m)
  unfolding AreDistinct lookup
  contains-keys_where test [] d j = refl
  contains-keys_where test ((i, s) ∷ m) d j =
      ground (arith, contains-keys_where test m d.1 j, contains-keys_where test m d.1 i, d.0)

  pub keys_where-NoRepeat :
      (test : V → Bool) (m : HashMap V) → AreDistinct m → NoRepeat (keys_where test m)
  unfolding AreDistinct
  keys_where-NoRepeat test [] d = tt
  keys_where-NoRepeat test ((i, s) ∷ m) d =
      ground (arith, keys_where-NoRepeat test m d.1, contains-keys_where test m d.1 i, d.0)

  -- Every key listed passes the test.
  pub keys_where-All :
      (test : V → Bool) (m : HashMap V)
      → AreDistinct m
      → All (λ v. hit test (lookup v m) ≡ true) (keys_where test m)
  keys_where-All test m d =
      All-contains _ (keys_where test m) (λ j c. sym (contains-keys_where test m d j) ∙ c)

  -- A key less.
  length-keys_where-remove :
      (test : V → Bool) (m : HashMap V) (i : ℕ)
      → (length (keys_where test (remove i m)) ≤ length (keys_where test m))
        × (hit test (lookup i m) ≡ true
            → length (keys_where test (remove i m)) + 1 ≤ length (keys_where test m))
  unfolding remove lookup
  length-keys_where-remove test [] i = (omega arith, λ h. cc)
  length-keys_where-remove test ((j, s) ∷ m) i =
      let ih = length-keys_where-remove test m i in
      (ground (arith, ih.0), λ h. ground (arith, ih.0, ih.1))

  others_stay :
      (test : V → Bool) (i : ℕ) (m : HashMap V) (ids : List ℕ)
      → contains ids i ≡ false
      → All (λ v. hit test (lookup v m) ≡ true) ids
      → All (λ v. hit test (lookup v (remove i m)) ≡ true) ids
  others_stay test i m [] c a = tt
  others_stay test i m (j ∷ ids) c a =
      ground (arith, others_stay test i m ids, lookup-remove i j m, a.0, a.1)

  -- There are at least as many keys that pass as different ones of which it is known.
  pub length-NoRepeat :
      (test : V → Bool) (ids : List ℕ) (m : HashMap V)
      → NoRepeat ids
      → All (λ v. hit test (lookup v m) ≡ true) ids
      → length ids ≤ length (keys_where test m)
  length-NoRepeat test [] m d a = omega arith
  length-NoRepeat test (i ∷ ids) m d a = omega (
    arith,
    length-NoRepeat test ids (remove i m) d.1 (others_stay test i m ids d.0 a.1),
    (length-keys_where-remove test m i).1 a.0,
  )
