-- ===== src/Index/Pages/After.antt =====
-- byoridb-storage/src/index.rs: the entries behind the last key of a page, in a table in key order.
use byoridb.Base.{
  ℕ, zero, suc, ◌≡◌, refl, ap, ◌∙◌, Bool, true, false, not, List, [], ◌∷◌, ◌++◌, some, some_inj,
  All, last?, take, drop, map, retain, arith,
}
use byoridb.Base.Ordered as Tree
use byoridb.Base.Ordered.{IsSorted, AllAbove, retain-IsSorted}
use byoridb.Base.Lex.{lex_ltb, lex-IsOrder}
use byoridb.Raft.Types.{Bytes}
use byoridb.Kv.{Entry}

abbrev pub keys_of : List Entry → List Bytes
keys_of es = map (λ (e : Entry). e.0) es

-- What a range scan without a limit reads.
abbrev pub from_to : Bytes → Bytes → List Entry → List Entry
from_to start end m = retain (λ (e : Entry). lex_ltb e.0 end) (Tree.range_from lex_ltb start m)

-- A key is from `last` with a byte 0 behind it on exactly when it is above `last`.
pub lex_ltb-push : (k last : Bytes) → lex_ltb k (last ++ 0 ∷ []) ≡ not (lex_ltb last k)
unfolding lex_ltb
lex_ltb-push [] [] = refl
lex_ltb-push [] (y ∷ last) = refl
lex_ltb-push (x ∷ []) [] = ground arith
lex_ltb-push (x ∷ z ∷ k) [] = ground arith
lex_ltb-push (x ∷ k) (y ∷ last) = ground (arith, lex_ltb-push k last)

pub from_to-IsSorted :
    (start end : Bytes) (m : List Entry)
    → IsSorted lex_ltb m
    → IsSorted lex_ltb (from_to start end m)
unfolding Tree.range_from
from_to-IsSorted start end m o = retain-IsSorted lex_ltb _ _ (retain-IsSorted lex_ltb _ m o)

-- What holds of all keys holds of the last of the first of them.
pub last-All :
    (P : Bytes → Type 0) (last : Bytes) (n : ℕ) (m : List Entry)
    → All (λ (e : Entry). P e.0) m
    → last? (keys_of (take n m)) ≡ some last
    → P last
last-All P last zero m a e = cc
last-All P last (suc n) [] a e = cc
last-All P last (suc zero) (x ∷ m) a e = rw (← some_inj e) a.0
last-All P last (suc (suc n)) (x ∷ []) a e = rw (← some_inj e) a.0
last-All P last (suc (suc n)) (x ∷ y ∷ m) a e = last-All P last (suc n) (y ∷ m) a.1 e

keep_above :
    (k : Bytes) (m : List Entry)
    → AllAbove lex_ltb k m
    → retain (λ (e : Entry). lex_ltb k e.0) m ≡ m
keep_above k [] a = refl
keep_above k (x ∷ m) a = rw a.0 (ap (◌∷◌ x) (keep_above k m a.1))

above_last :
    (last : Bytes) (n : ℕ) (m : List Entry)
    → IsSorted lex_ltb m
    → last? (keys_of (take n m)) ≡ some last
    → retain (λ (e : Entry). lex_ltb last e.0) m ≡ drop n m
unfolding IsSorted
above_last last zero m o e = cc
above_last last (suc n) [] o e = cc
above_last last (suc zero) ((k, v) ∷ m) o e =
    ground (arith, some_inj e, lex-IsOrder.irrefl k, keep_above k m o.0)
above_last last (suc (suc n)) ((k, v) ∷ []) o e = ground (arith, some_inj e, lex-IsOrder.irrefl k)
above_last last (suc (suc n)) ((k, v) ∷ y ∷ m) o e = ground (
  arith,
  last-All (λ j. lex_ltb k j ≡ true) last (suc n) (y ∷ m) o.0 e,
  lex-IsOrder.irrefl k,
  lex-IsOrder.trans k last k,
  above_last last (suc n) (y ∷ m) o.1 e,
)

-- A later start reads what the earlier one reads from there on.
narrowed :
    (start later end : Bytes) (m : List Entry)
    → ((k : Bytes) → lex_ltb k later ≡ false → lex_ltb k start ≡ false)
    → from_to later end m ≡ retain (λ (e : Entry). not (lex_ltb e.0 later)) (from_to start end m)
unfolding Tree.range_from
narrowed start later end [] h = refl
narrowed start later end ((k, v) ∷ m) h = ground (arith, narrowed start later end m h, h k)

retain_same :
    (f g : Entry → Bool) → ((e : Entry) → f e ≡ g e) → (m : List Entry) → retain f m ≡ retain g m
retain_same f g h [] = refl
retain_same f g h (e ∷ m) = ground (arith, h e, retain_same f g h m)

from_to-All :
    (start end : Bytes) (m : List Entry)
    → All (λ (e : Entry). lex_ltb e.0 start ≡ false) (from_to start end m)
unfolding Tree.range_from
from_to-All start end [] = tt
from_to-All start end ((k, v) ∷ m) = ground (arith, from_to-All start end m)

-- The entries from behind the last key of a page are those that the page left out.
pub from_to-push :
    (start end last : Bytes) (n : ℕ) (m : List Entry)
    → IsSorted lex_ltb m
    → last? (keys_of (take n (from_to start end m))) ≡ some last
    → from_to (last ++ 0 ∷ []) end m ≡ drop n (from_to start end m)
from_to-push start end last n m o e =
    narrowed start (last ++ 0 ∷ []) end m (λ k h. ground (
      arith,
      lex_ltb-push k last,
      lex-IsOrder.trans last k start,
      last-All (λ j. lex_ltb j start ≡ false) last n (from_to start end m) (from_to-All start end m)
          e,
    ))
    ∙ retain_same _ _ (λ t. ground (arith, lex_ltb-push t.0 last)) (from_to start end m)
    ∙ above_last last n (from_to start end m) (from_to-IsSorted start end m o) e
