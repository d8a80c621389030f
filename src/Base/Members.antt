-- ===== src/Base/Members.antt =====
-- The elements of a list, as a predicate.
use Prim.Native.Nat.{◌≤◌}
use mathlib.Core.Path.{◌≡◌, refl}
use mathlib.Core.Bool.{Bool, true, false}
use mathlib.Core.List.{List, [], ◌∷◌, ◌++◌}
use mathlib.Core.Logic.{◌↔◌, ◌⊎◌, inl, inr}
use native.Mathlib.Omega.{arith}
use byoridb.Base.Tests.{Bool-cases}
use byoridb.Base.Ordered as Tree
use byoridb.Base.Ordered.{same}
use byoridb.Base.Lists.{retain, All, length}

abbrev pub Within : {A : Type 0} → A → List A → Type 0
Within a [] = ⊥
Within a (x ∷ xs) = (a ≡ x) ⊎ Within a xs

pub Within-retain :
    {A : Type 0} (keep : A → Bool) (xs : List A) (a : A)
    → Within a (retain keep xs) ↔ (Within a xs × (keep a ≡ true))
Within-retain keep [] a = (λ h. absurd h, λ h. absurd h.0)
Within-retain keep (x ∷ xs) a = elim (Bool-cases (keep x)) [
  | inl y ↦ rw y (
    λ w. elim w [
      | inl e ↦ (inl e, rw e y)
      | inr v ↦ let (u, k) = (Within-retain keep xs a).0 v in (inr u, k)
    ],
    λ (w, k). elim w [ inl e ↦ inl e | inr v ↦ inr ((Within-retain keep xs a).1 (v, k)) ],
  )
  | inr n ↦ rw n (
    λ v. let (u, k) = (Within-retain keep xs a).0 v in (inr u, k),
    λ (w, k). elim w [
      | inl e ↦ let f : keep a ≡ false = rw e n in cc
      | inr v ↦ (Within-retain keep xs a).1 (v, k)
    ],
  )
]

pub All-Within :
    {A : Type 0} (P : A → Type 0) (xs : List A) → All P xs → (a : A) → Within a xs → P a
All-Within P [] h a w = absurd w
All-Within P (x ∷ xs) (p, ps) a (inl e) = rw e p
All-Within P (x ∷ xs) (p, ps) a (inr w) = All-Within P xs ps a w

pub Within-All :
    {A : Type 0} (P : A → Type 0) (xs : List A) → ((a : A) → Within a xs → P a) → All P xs
Within-All P [] h = tt
Within-All P (x ∷ xs) h = (h x (inl refl), Within-All P xs (λ a w. h a (inr w)))

pub length-retain :
    {A : Type 0} (keep : A → Bool) (xs : List A) → length (retain keep xs) ≤ length xs
length-retain keep [] = omega arith
length-retain keep (x ∷ xs) = ground (arith, length-retain keep xs)

pub All-retain :
    {A : Type 0} (P : A → Type 0) (keep : A → Bool) (xs : List A)
    → All P xs
    → All P (retain keep xs)
All-retain P keep [] a = tt
All-retain P keep (x ∷ xs) (p, a) = elim (Bool-cases (keep x)) [
  | inl y ↦ rw y (p, All-retain P keep xs a)
  | inr n ↦ rw n (All-retain P keep xs a)
]

pub Within-append :
    {A : Type 0} (xs ys : List A) (a : A) → Within a (xs ++ ys) ↔ (Within a xs ⊎ Within a ys)
Within-append [] ys a = (λ w. inr w, λ w. elim w [ inl h ↦ absurd h | inr h ↦ h ])
Within-append (x ∷ xs) ys a =
    let ih = Within-append xs ys a in
    (
      λ w. elim w [
        | inl e ↦ inl (inl e)
        | inr v ↦ elim (ih.0 v) [ inl h ↦ inl (inr h) | inr h ↦ inr h ]
      ],
      λ w. elim w [
        | inl h ↦ elim h [ inl e ↦ inl e | inr v ↦ inr (ih.1 (inl v)) ]
        | inr v ↦ inr (ih.1 (inr v))
      ],
    )

module _ {K V : Type 0} (lt : K → K → Bool) where
  pub insert-Within :
      (k : K) (v : V) (m : List (K × V)) (e : K × V)
      → Within e (Tree.insert lt k v m)
      → (e ≡ (k, v)) ⊎ Within e m
  unfolding Tree.insert
  insert-Within k v [] e w = elim w [ inl q ↦ inl q | inr u ↦ absurd u ]
  insert-Within k v ((j, x) ∷ m) e w = elim (Bool-cases (lt k j)) [
    | inl before ↦ rw before at w
    | inr after ↦ elim (Bool-cases (lt j k)) [
      | inl behind ↦
          let u : Within e ((j, x) ∷ Tree.insert lt k v m) = rw (after, behind) at w in
          elim u [
            | inl q ↦ inr (inl q)
            | inr t ↦ elim (insert-Within k v m e t) [ inl q ↦ inl q | inr d ↦ inr (inr d) ]
          ]
      | inr level ↦
          let u : Within e ((k, v) ∷ m) = rw (after, level) at w in
          elim u [ inl q ↦ inl q | inr t ↦ inr (inr t) ]
    ]
  ]

  pub remove-Within :
      (k : K) (m : List (K × V)) (e : K × V) → Within e (Tree.remove lt k m) → Within e m
  unfolding Tree.remove
  remove-Within k [] e w = w
  remove-Within k ((j, x) ∷ m) e w = elim (Bool-cases (same lt j k)) [
    | inl hit ↦ let u : Within e (Tree.remove lt k m) = rw hit at w in inr (remove-Within k m e u)
    | inr miss ↦
        let u : Within e ((j, x) ∷ Tree.remove lt k m) = rw miss at w in
        elim u [ inl q ↦ inl q | inr t ↦ inr (remove-Within k m e t) ]
  ]
