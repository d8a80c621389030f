-- ===== src/Base/Ordered.antt =====
-- `BTreeMap`: an association list in the order of its keys, for keys with a strict order `lt`.
use mathlib.Core.Path.{◌≡◌, refl}
use mathlib.Core.Bool.{Bool, true, false, not, ◌&&◌}
use mathlib.Core.List.{List, [], ◌∷◌}
use mathlib.Core.Option.{Option, none, some}
use native.Mathlib.Omega.{arith}
use byoridb.Base.Tests.{if◌then◌else◌}
use byoridb.Base.Lists.{retain, All}

pub record IsOrder {K : Type 0} (lt : K → K → Bool) : Type 0 where
  pub irrefl : (a : K) → lt a a ≡ false
  pub trans : (a b c : K) → lt a b ≡ true → lt b c ≡ true → lt a c ≡ true
  pub connected : (a b : K) → lt a b ≡ false → lt b a ≡ false → a ≡ b

module _ {K : Type 0} (lt : K → K → Bool) where
  abbrev pub same : K → K → Bool
  same a b = not (lt a b) && not (lt b a)

  module _ {V : Type 0} where
    unfoldable pub lookup : K → List (K × V) → Option V
    lookup sought [] = none
    lookup sought ((key, value) ∷ entries) =
        if same key sought then some value else lookup sought entries

    unfoldable pub insert : K → V → List (K × V) → List (K × V)
    insert new value [] = (new, value) ∷ []
    insert new value ((key, old) ∷ entries) =
        let rest = insert new value entries in
        if lt new key
        then (new, value) ∷ (key, old) ∷ entries
        else (if lt key new then (key, old) ∷ rest else (new, value) ∷ entries)

    unfoldable pub remove : K → List (K × V) → List (K × V)
    remove removed [] = []
    remove removed ((key, value) ∷ entries) =
        let rest = remove removed entries in if same key removed then rest else (key, value) ∷ rest

    -- `range(low..)`
    unfoldable pub range_from : K → List (K × V) → List (K × V)
    range_from low entries = retain (λ e. not (lt e.0 low)) entries

    abbrev pub AllAbove : K → List (K × V) → Type 0
    AllAbove k m = All (λ e. lt k e.0 ≡ true) m

    unfoldable pub IsSorted : List (K × V) → Type 0
    IsSorted [] = Unit
    IsSorted ((key, value) ∷ entries) = AllAbove key entries × IsSorted entries

    AllAbove-retain :
        (k : K) (keep : K × V → Bool) (m : List (K × V)) → AllAbove k m → AllAbove k (retain keep m)
    AllAbove-retain k keep [] a = tt
    AllAbove-retain k keep (e ∷ m) a = ground (arith, AllAbove-retain k keep m a.1, a.0)

    pub retain-IsSorted :
        (keep : K × V → Bool) (m : List (K × V)) → IsSorted m → IsSorted (retain keep m)
    unfolding IsSorted
    retain-IsSorted keep [] o = tt
    retain-IsSorted keep ((k, v) ∷ m) o =
        ground (arith, retain-IsSorted keep m o.1, AllAbove-retain k keep m o.0)

    module _ (o : IsOrder lt) where
      pub lookup-insert :
          (new sought : K) (value : V) (entries : List (K × V))
          → lookup sought (insert new value entries)
            ≡ (if same new sought then some value else lookup sought entries)
      unfolding lookup insert
      lookup-insert new sought value [] = refl
      lookup-insert new sought value ((key, old) ∷ entries) = ground (
        arith,
        lookup-insert new sought value entries,
        o.connected key new,
        o.connected key sought,
        o.connected new sought,
      )

      pub lookup-remove :
          (removed sought : K) (entries : List (K × V))
          → lookup sought (remove removed entries)
            ≡ (if same removed sought then none else lookup sought entries)
      unfolding lookup remove
      lookup-remove removed sought [] = ground arith
      lookup-remove removed sought ((key, value) ∷ entries) = ground (
        arith,
        lookup-remove removed sought entries,
        o.connected key removed,
        o.connected key sought,
        o.connected removed sought,
      )

      AllAbove-insert :
          (k new : K) (value : V) (entries : List (K × V))
          → lt k new ≡ true
          → AllAbove k entries
          → AllAbove k (insert new value entries)
      unfolding insert
      AllAbove-insert k new value [] h a = ground arith
      AllAbove-insert k new value ((key, old) ∷ entries) h a =
          ground (arith, AllAbove-insert k new value entries h a.1, a.0)

      AllAbove-trans :
          (j k : K) (entries : List (K × V))
          → lt j k ≡ true
          → AllAbove k entries
          → AllAbove j entries
      AllAbove-trans j k [] h a = ground arith
      AllAbove-trans j k ((key, old) ∷ entries) h a =
          (o.trans j k key h a.0, AllAbove-trans j k entries h a.1)

      pub insert-IsSorted :
          (new : K) (value : V) (entries : List (K × V))
          → IsSorted entries
          → IsSorted (insert new value entries)
      unfolding IsSorted insert
      insert-IsSorted new value [] s = ground arith
      insert-IsSorted new value ((key, old) ∷ entries) s = ground (
        arith,
        insert-IsSorted new value entries s.1,
        AllAbove-insert key new value entries,
        AllAbove-trans new key entries,
        o.connected key new,
      )

      AllAbove-remove :
          (k removed : K) (entries : List (K × V))
          → AllAbove k entries
          → AllAbove k (remove removed entries)
      unfolding remove
      AllAbove-remove k removed [] a = ground arith
      AllAbove-remove k removed ((key, old) ∷ entries) a =
          ground (arith, AllAbove-remove k removed entries a.1, a.0)

      pub remove-IsSorted :
          (removed : K) (entries : List (K × V))
          → IsSorted entries
          → IsSorted (remove removed entries)
      unfolding IsSorted remove
      remove-IsSorted removed [] s = ground arith
      remove-IsSorted removed ((key, old) ∷ entries) s =
          ground
            (arith, remove-IsSorted removed entries s.1, AllAbove-remove key removed entries s.0)
