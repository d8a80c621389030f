-- ===== src/Raft/Log/Updates.antt =====
-- The log of log.rs after an append and after a compaction; the invariant kept by each change.
use byoridb.Base.{
  ℕ, zero, suc, ◌+◌, ◌-◌, ◌≤◌, ◌<◌, ◌≡◌, refl, List, [], ◌∷◌, ◌++◌, none, some, inl, inr,
  Bool-cases, length, get_elem?, take, drop, ltb, leb, ◌==◌, if◌then◌else◌, u64_mod, add64_exact,
  sub64_exact, arith, length-append, length-take, length-drop,
}
use mathlib.Core.Path.{subst}
use native.Mathlib.Nat.{zero-add, add-zero}
use byoridb.Raft.Types.{Command, LogEntry}
use byoridb.Raft.Log.Defs.{
  RaftLog, new, last_index, get, term, append, append_entry, truncate, compact,
}
use byoridb.Raft.Log.Reads.{
  IsIndexed, IsWf, Fits, last_index_lem, get_lem, get_elem?-drop, get_elem?-append, truncate_lem,
  compact_lem, compact-Fits,
}

pub IsIndexed-take : (n i : ℕ) (es : List LogEntry) → IsIndexed i es → IsIndexed i (take n es)
IsIndexed-take zero i es h = tt
IsIndexed-take (suc n) i [] h = tt
IsIndexed-take (suc n) i (e ∷ es) h = (h.0, IsIndexed-take n (suc i) es h.1)

pub IsIndexed-drop : (n i : ℕ) (es : List LogEntry) → IsIndexed i es → IsIndexed (n + i) (drop n es)
IsIndexed-drop zero i es h = rw (zero-add) h
IsIndexed-drop (suc n) i [] h = tt
IsIndexed-drop (suc n) i (e ∷ es) h =
    subst (λ k. IsIndexed k (drop n es)) (omega arith) (IsIndexed-drop n (suc i) es h.1)

pub IsIndexed-append :
    (i : ℕ) (xs ys : List LogEntry)
    → IsIndexed i xs
    → IsIndexed (i + length xs) ys
    → IsIndexed i (xs ++ ys)
IsIndexed-append i [] ys h k = rw add-zero at k
IsIndexed-append i (x ∷ xs) ys h k =
    (h.0, IsIndexed-append (suc i) xs ys h.1 (subst (λ n. IsIndexed n ys) (omega arith) k))

pub new-IsWf : IsWf new
unfolding new
new-IsWf = record { first_pos = omega arith; bounded = omega arith; indexed = tt }

-- A truncation keeps the invariant.
pub truncate-IsWf : (l : RaftLog) (k : ℕ) → IsWf l → IsWf (truncate l k)
truncate-IsWf l k w = rw (truncate_lem l k (w.first_pos, w.bounded)) (record {
  first_pos = w.first_pos;
  bounded = omega (arith, w.bounded, length-take (k - l.first_index) l.entries);
  indexed = IsIndexed-take (k - l.first_index) l.first_index l.entries w.indexed;
})

-- A compaction up to any index before the last 64-bit values, below the log and beyond its end
-- too, leaves a well-formed log well-formed.
pub compact-IsWf : (l : RaftLog) (k t : ℕ) → IsWf l → k + 1 < u64_mod → IsWf (compact l k t)
compact-IsWf l k t w b = elim (Bool-cases (ltb k l.first_index)) [
  | inl below ↦ unfold compact in rw below w
  | inr above ↦ rw (compact_lem l k t (w.first_pos, w.bounded) (ground arith) b) (record {
    first_pos = omega arith;
    bounded = omega (arith, w.bounded, length-drop (k + 1 - l.first_index) l.entries, b);
    indexed =
        subst (λ n. IsIndexed n (drop (k + 1 - l.first_index) l.entries)) (ground arith)
          (IsIndexed-drop (k + 1 - l.first_index) l.first_index l.entries w.indexed);
  })
]

-- Entries that continue the log keep the invariant, when their indexes fit.
pub append-IsWf :
    (l : RaftLog) (es : List LogEntry)
    → IsWf l
    → IsIndexed (last_index l + 1) es
    → last_index l + 1 + length es < u64_mod
    → IsWf (append l es)
unfolding append
append-IsWf l es w h b =
    let n : last_index l + 1 ≡ l.first_index + length l.entries =
      last_index_lem l (w.first_pos, w.bounded) in
    record {
      first_pos = w.first_pos;
      bounded = omega (arith, n, length-append l.entries es);
      indexed = IsIndexed-append l.first_index l.entries es w.indexed (rw n at h);
    }

pub append_entry_lem :
    (l : RaftLog) (t : ℕ) (c : Command)
    → Fits l
    → append_entry l t c ≡ (
      append l ((record { term = t; index = last_index l + 1; command = c }) ∷ []),
      last_index l + 1,
    )
unfolding append_entry append
append_entry_lem l t c w = rw (add64_exact (last_index l) 1 (omega (arith, last_index_lem l w)))

pub append_entry-IsWf :
    (l : RaftLog) (t : ℕ) (c : Command)
    → IsWf l
    → last_index l + 2 < u64_mod
    → IsWf (append_entry l t c).0
append_entry-IsWf l t c w b =
    rw (append_entry_lem l t c (w.first_pos, w.bounded))
      (append-IsWf l _ w (refl, tt) (omega arith))

entries-append :
    (l : RaftLog) (es : List LogEntry)
    → (length (append l es).entries ≡ length l.entries + length es)
      × ((append l es).first_index ≡ l.first_index)
unfolding append
entries-append l es = (length-append l.entries es, refl)

pub append-Fits :
    (l : RaftLog) (es : List LogEntry)
    → Fits l
    → last_index l + 1 + length es < u64_mod
    → Fits (append l es)
unfolding append
append-Fits l es w b = omega (arith, last_index_lem l w, length-append l.entries es)

pub last_index-append :
    (l : RaftLog) (es : List LogEntry)
    → Fits l
    → last_index l + 1 + length es < u64_mod
    → last_index (append l es) ≡ last_index l + length es
last_index-append l es w b = omega (
  arith,
  last_index_lem l w,
  last_index_lem (append l es) (append-Fits l es w b),
  entries-append l es,
)

-- After an append to a log whose indexes fit, and still fit with the new entries, the old entries
-- are found up to the old last index and the new ones in order behind it.
pub get-append :
    (l : RaftLog) (es : List LogEntry) (i : ℕ)
    → Fits l
    → last_index l + 1 + length es < u64_mod
    → get (append l es) i
      ≡ (if leb i (last_index l) then get l i else get_elem? es (i - (last_index l + 1)))
unfolding append
get-append l es i w b =
    rw (get_lem (append l es) i (append-Fits l es w b), get_lem l i w)
      (ground (arith, last_index_lem l w, get_elem?-append l.entries es (i - l.first_index)))

-- After a compaction up to an index `k` before the last 64-bit values, of a log whose indexes
-- fit, no entry up to `k` is found and every later one is found as before.
pub get-compact :
    (l : RaftLog) (k t i : ℕ)
    → Fits l
    → k + 1 < u64_mod
    → get (compact l k t) i ≡ (if leb i k then none else get l i)
get-compact l k t i w b = elim (Bool-cases (ltb k l.first_index)) [
  | inl below ↦ unfold compact in rw below (ground (arith, get_lem l i w))
  | inr above ↦
      rw
        (
          get_lem (compact l k t) i (compact-Fits l k t w b),
          compact_lem l k t w (ground arith) b,
          get_lem l i w,
        )
        (ground (arith, get_elem?-drop (k + 1 - l.first_index) (i - (k + 1)) l.entries))
]

-- After a compaction up to an index `k` not below the first index and before the last 64-bit
-- values, of a log whose indexes fit, the term at `k` is the snapshot's and the term at every
-- later index is as before.
pub term-compact :
    (l : RaftLog) (k t i : ℕ)
    → Fits l
    → l.first_index ≤ k
    → k + 1 < u64_mod
    → k ≤ i
    → term (compact l k t) i ≡ (if i == k then some t else term l i)
unfolding term
term-compact l k t i w h b le =
    rw (get-compact l k t i w b, compact_lem l k t w h b) (ground (arith, sub64_exact (k + 1) 1))
