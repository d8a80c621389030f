-- ===== src/Base/Maps.antt =====
-- `HashMap` with number keys as an association list. No result depends on the order of entries.
use Prim.Native.Nat.{ℕ}
use mathlib.Core.Path.{◌≡◌, refl}
use mathlib.Core.List.{List, [], ◌∷◌}
use mathlib.Core.Option.{Option, none, some}
use native.Mathlib.Omega.{arith}
use byoridb.Base.Tests.{if◌then◌else◌, ◌==◌}

abbrev pub HashMap {ℓ} : Type ℓ → Type ℓ
HashMap V = List (ℕ × V)

module _ {ℓ} {V : Type ℓ} where
  unfoldable pub values : HashMap V → List V
  values [] = []
  values ((key, value) ∷ entries) = value ∷ values entries

  unfoldable pub remove : ℕ → HashMap V → HashMap V
  remove removed [] = []
  remove removed ((key, value) ∷ entries) =
      let rest = remove removed entries in if key == removed then rest else (key, value) ∷ rest

  unfoldable pub lookup : ℕ → HashMap V → Option V
  lookup sought [] = none
  lookup sought ((key, value) ∷ entries) =
      if key == sought then some value else lookup sought entries

  pub lookup-remove :
      (removed sought : ℕ) (entries : HashMap V)
      → lookup sought (remove removed entries)
        ≡ (if removed == sought then none else lookup sought entries)
  unfolding lookup remove
  lookup-remove removed sought [] = ground arith
  lookup-remove removed sought ((key, value) ∷ entries) =
      ground (arith, lookup-remove removed sought entries)

  unfoldable pub insert : ℕ → V → HashMap V → HashMap V
  insert new value [] = (new, value) ∷ []
  insert new value ((key, old) ∷ entries) =
      if key == new then (new, value) ∷ entries else (key, old) ∷ insert new value entries

  pub lookup-insert :
      (new sought : ℕ) (value : V) (entries : HashMap V)
      → lookup sought (insert new value entries)
        ≡ (if new == sought then some value else lookup sought entries)
  unfolding lookup insert
  lookup-insert new sought value [] = refl
  lookup-insert new sought value ((key, old) ∷ entries) =
      ground (arith, lookup-insert new sought value entries)
