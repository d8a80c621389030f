-- ===== src/Index/Scans/Successor.antt =====
-- byoridb-storage/src/index.rs: `prefix_successor` is the first key behind those with a prefix.
use byoridb.Base.{
  ℕ, ◌+◌, ◌≤◌, ◌<◌, ◌≡◌, inl, inr, refl, false, not, ◌&&◌, [], ◌∷◌, ◌++◌, none, some, All, arith,
  Option-cases,
}
use byoridb.Base.Lex.{lex_ltb, starts_with}
use byoridb.Raft.Types.{Bytes}
use byoridb.Index.Scans.{prefix_successor}

abbrev pub AreBytes : Bytes → Type 0
AreBytes bs = All (λ b. b ≤ 255) bs

pub lex_nil : (k : Bytes) → lex_ltb k [] ≡ false
unfolding lex_ltb
lex_nil [] = refl
lex_nil (y ∷ k) = refl

-- A prefix without a successor is made of bytes 255, so that what is not below it starts with it.
no_successor :
    (p k : Bytes)
    → AreBytes k
    → prefix_successor p ≡ none
    → AreBytes p
    → starts_with p k ≡ not (lex_ltb k p)
unfolding prefix_successor starts_with lex_ltb
no_successor [] [] a e b = refl
no_successor [] (y ∷ k) a e b = refl
no_successor (x ∷ p) [] a e b = refl
no_successor (x ∷ p) (y ∷ k) a e b =
    ground (arith, e, no_successor p k a.1, Option-cases (prefix_successor p))

-- The keys from a prefix on and below its successor are those that start with it.
pub prefix_successor_lem :
    (p end k : Bytes)
    → AreBytes p
    → AreBytes k
    → prefix_successor p ≡ some end
    → starts_with p k ≡ (not (lex_ltb k p) && lex_ltb k end)
unfolding prefix_successor starts_with lex_ltb
prefix_successor_lem [] end k b a e = cc
prefix_successor_lem (x ∷ p) end [] b a e = ground (arith, e, Option-cases (prefix_successor p))
prefix_successor_lem (x ∷ p) end (y ∷ k) b a e = elim (Option-cases (prefix_successor p)) [
  | inl n ↦
      let cut : end ≡ (x + 1) ∷ [] = ground (arith, e, n) in
      rw cut (ground (arith, lex_nil k, no_successor p k a.1 n b.1))
  | inr (rest, f) ↦
      let kept : end ≡ x ∷ rest = ground (arith, e, f) in
      rw kept (ground (arith, prefix_successor_lem p rest k b.1 a.1 f))
]

-- A byte below 255 anywhere makes a successor.
pub successor-some :
    (p : Bytes) (x : ℕ) (q : Bytes)
    → x < 255
    → (end : Bytes) × (prefix_successor (p ++ (x ∷ q)) ≡ some end)
unfolding prefix_successor
successor-some [] x q h = elim (Option-cases (prefix_successor q)) [
  | inl n ↦ ((x + 1) ∷ [], ground (arith, n))
  | inr (end, e) ↦ (x ∷ end, rw e refl)
]
successor-some (y ∷ p) x q h = let (end, e) = successor-some p x q h in (y ∷ end, rw e refl)
