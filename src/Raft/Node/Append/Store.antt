-- ===== src/Raft/Node/Append/Store.antt =====
-- byoridb-storage/src/raft/node.rs, `handle_append_entries`: the log after the entries of a request
-- that starts behind the consistency check have been stored.
use mathlib.Core.List.{append-nil}
use mathlib.Core.Path.{subst}
use byoridb.Base.{
  ℕ, suc, ◌+◌, ◌-◌, ◌≤◌, ◌<◌, ◌≡◌, inl, inr, refl, sym, ap, true, List, [], ◌∷◌, Bool-cases, length,
  get_elem?, drop, retain, is_empty, ltb, ltb→lt, if◌then◌else◌, arith, u64_mod, length-take,
  length-drop, drop-nil,
}
use byoridb.Raft.Types.{LogEntry}
use byoridb.Raft.Log.Defs.{RaftLog, last_index, get, append, truncate}
use byoridb.Raft.Log.Reads.{
  IsIndexed, IsWf, Fits, last_index_lem, truncate_lem, truncate-Fits, get-truncate, get_elem?-drop,
}
use byoridb.Raft.Log.Updates.{
  get-append, append-IsWf, truncate-IsWf, IsIndexed-drop, last_index-append,
}
use byoridb.Raft.Node.Append.{drop_conflicts, store_entries}
use byoridb.Raft.Node.Append.Cut.{IsCut, drop_conflicts-IsCut}

-- The entries behind `m` are a suffix.
retain-eq-drop :
    (m s : ℕ) (es : List LogEntry)
    → IsIndexed s es
    → retain (λ e. ltb m e.index) es ≡ drop (m + 1 - s) es
retain-eq-drop m s [] x = sym (drop-nil (m + 1 - s))
retain-eq-drop m s (e ∷ es) x = elim (Bool-cases (ltb m s)) [
  | inl later ↦
      let q : m + 1 - s ≡ 0 = omega (arith, ltb→lt _ _ later) in
      let q' : m + 1 - suc s ≡ 0 = omega (arith, ltb→lt _ _ later) in
      rw (retain-eq-drop m (suc s) es x.1, x.0, later, q, q') refl
  | inr covered ↦
      let q : m + 1 - s ≡ suc (m + 1 - suc s) = ground arith in
      rw (retain-eq-drop m (suc s) es x.1, x.0, covered, q) refl
]

append_nothing : (l : RaftLog) (xs : List LogEntry) → is_empty xs ≡ true → append l xs ≡ l
unfolding append
append_nothing l [] h = rw (append-nil)
append_nothing l (x ∷ xs) h = cc

store_entries_lem :
    (l : RaftLog) (es : List LogEntry)
    → store_entries l es
      ≡ append
          (drop_conflicts l es)
          (retain (λ e. ltb (last_index (drop_conflicts l es)) e.index) es)
unfolding store_entries
store_entries_lem l [] = unfold drop_conflicts append in rw append-nil
store_entries_lem l (e ∷ es) = ground (
  arith,
  append_nothing (drop_conflicts l (e ∷ es))
      (retain (λ e'. ltb (last_index (drop_conflicts l (e ∷ es))) e'.index) (e ∷ es)),
)

pub cut_last :
    (l : RaftLog) (k : ℕ)
    → Fits l
    → l.first_index ≤ k
    → k ≤ last_index l + 1
    → last_index (truncate l k) + 1 ≡ k
cut_last l k w f h = omega (
  arith,
  last_index_lem l w,
  last_index_lem (truncate l k) (truncate-Fits l k w),
  ap (λ (r : RaftLog). length r.entries) (truncate_lem l k w),
  ap (λ (r : RaftLog). r.first_index) (truncate_lem l k w),
  length-take (k - l.first_index) l.entries,
)

pub le-last_index-truncate :
    (l : RaftLog) (k : ℕ) → Fits l → k ≤ last_index l + 1 → k ≤ last_index (truncate l k) + 1
le-last_index-truncate l k w h = omega (
  arith,
  last_index_lem l w,
  last_index_lem (truncate l k) (truncate-Fits l k w),
  ap (λ (r : RaftLog). length r.entries) (truncate_lem l k w),
  ap (λ (r : RaftLog). r.first_index) (truncate_lem l k w),
  length-take (k - l.first_index) l.entries,
)

module _ (l : RaftLog) (s : ℕ) (es : List LogEntry) (w : Fits l) (x : IsIndexed s es)
    (h : s ≤ last_index l + 1) where
  pub store_entries-IsCut :
      (k : ℕ) × IsCut l s es k × (store_entries l es ≡ append (truncate l k) (drop (k - s) es))
  store_entries-IsCut =
      let (k, q, c) = drop_conflicts-IsCut l s es w x h in
      let m = last_index (truncate l k) in
      (
        k,
        c,
        rw (
          store_entries_lem l es,
          q,
          retain-eq-drop m s es x,
          cut_last l k w c.above_first c.within,
        ),
      )

  module _ (b : s + length es < u64_mod) where
    -- Below the cut the old log, and from it on the request's entries.
    pub get-store_entries :
        (k : ℕ) × IsCut l s es k
        × ((i : ℕ)
            → get (store_entries l es) i ≡ (if ltb i k then get l i else get_elem? es (i - s)))
    get-store_entries = let (k, c, q) = store_entries-IsCut in (k, c, λ i. rw q (go k c i))
      where
        go :
            (k : ℕ)
            → IsCut l s es k
            → (i : ℕ)
            → get (append (truncate l k) (drop (k - s) es)) i
              ≡ (if ltb i k then get l i else get_elem? es (i - s))
        go k c i =
            let e : last_index (truncate l k) + 1 ≡ k = cut_last l k w c.above_first c.within in
            rw
              (
                get-append (truncate l k) (drop (k - s) es) i (truncate-Fits l k w)
                    (omega (arith, e, last_index_lem l w, c.within, length-drop (k - s) es)),
                get-truncate l k i w,
                e,
                get_elem?-drop (k - s) (i - k) es,
              )
              (ground (arith, e, c.above_start))

    -- The log ends no earlier than the cut.
    pub last_index-store_entries :
        (k : ℕ) × IsCut l s es k
        × ((i : ℕ) → i < k → get (store_entries l es) i ≡ get l i)
        × (k ≤ last_index (store_entries l es) + 1)
    last_index-store_entries =
        let (k, c, q) = store_entries-IsCut in
        let (k', c', r) = get-store_entries in
        let e : last_index (truncate l k) + 1 ≡ k = cut_last l k w c.above_first c.within in
        let v : Fits (truncate l k) = truncate-Fits l k w in
        let small : last_index (truncate l k) + 1 + length (drop (k - s) es) < u64_mod =
          omega (arith, e, last_index_lem l w, c.within, length-drop (k - s) es) in
        (
          k,
          c,
          (λ i lt.
              rw (q, get-append (truncate l k) (drop (k - s) es) i v small, get-truncate l k i w)
                (ground (arith, e))),
          rw q (omega (arith, e, last_index-append (truncate l k) (drop (k - s) es) v small)),
        )

    pub store_entries-IsWf : IsWf l → IsWf (store_entries l es)
    store_entries-IsWf v =
        let (k, c, q) = store_entries-IsCut in
        let e : last_index (truncate l k) + 1 ≡ k = cut_last l k w c.above_first c.within in
        rw q (
          append-IsWf (truncate l k) (drop (k - s) es) (truncate-IsWf l k v)
            (rw e (
              subst (λ n. IsIndexed n (drop (k - s) es)) (omega (arith, c.above_start))
                (IsIndexed-drop (k - s) s es x)))
            (omega (arith, e, last_index_lem l w, c.within, length-drop (k - s) es)))
