-- ===== src/Raft/Node/Append/Cut.antt =====
-- byoridb-storage/src/raft/node.rs, `handle_append_entries`: where the loop over the conflicting
-- entries cuts the log.
use byoridb.Base.{
  ℕ, suc, ◌+◌, ◌-◌, ◌≤◌, ◌<◌, ◌≡◌, ◌≢◌, ◌⊎◌, inl, inr, refl, sym, ◌∙◌, List, [], ◌∷◌, none, some,
  Bool-cases, get_elem?, ltb, ltb→lt, ◌==◌, arith,
}
use byoridb.Raft.Types.{LogEntry}
use byoridb.Raft.Log.Defs.{RaftLog, last_index, get, term_of, truncate}
use byoridb.Raft.Log.Reads.{IsIndexed, Fits, last_index_lem, get-found}
use byoridb.Raft.Node.Append.{drop_conflicts}

-- Below `k` the log has the terms of the entries that start at index `s`; at `k` it ends or
-- has another term.
pub record IsCut (l : RaftLog) (s : ℕ) (es : List LogEntry) (k : ℕ) : Type 0 where
  pub above_first : l.first_index ≤ k
  pub above_start : s ≤ k
  pub within : k ≤ last_index l + 1
  pub agrees :
      (i : ℕ) (e : LogEntry)
      → get_elem? es (i - s) ≡ some e
      → s ≤ i
      → l.first_index ≤ i
      → i < k
      → term_of (get l i) ≡ some e.term
  pub reason :
      (k ≡ last_index l + 1)
      ⊎ ((e : LogEntry) × (get_elem? es (k - s) ≡ some e) × (term_of (get l k) ≢ some e.term))

cut_end : (l : RaftLog) → Fits l → truncate l (last_index l + 1) ≡ l
unfolding truncate
cut_end l w = ground (arith, last_index_lem l w)

drop_conflicts_beyond :
    (l : RaftLog) (s : ℕ) (es : List LogEntry)
    → IsIndexed s es
    → last_index l < s
    → drop_conflicts l es ≡ l
unfolding drop_conflicts get
drop_conflicts_beyond l s [] x h = refl
drop_conflicts_beyond l s (e ∷ es) x h = ground (arith, drop_conflicts_beyond l (suc s) es x.1)

get_elem?_later :
    (e : LogEntry) (es : List LogEntry) (i s : ℕ)
    → s < i
    → get_elem? (e ∷ es) (i - s) ≡ get_elem? es (i - suc s)
get_elem?_later e es i s h = let q : i - s ≡ suc (i - suc s) = omega arith in rw q

get_elem?_here :
    (e : LogEntry) (es : List LogEntry) (i s : ℕ) → i ≡ s → get_elem? (e ∷ es) (i - s) ≡ some e
get_elem?_here e es i s h = let q : i - s ≡ 0 = omega arith in rw q

-- An entry that agrees with the log moves the start of a cut down by one.
IsCut-cons :
    (l : RaftLog) (s : ℕ) (e : LogEntry) (es : List LogEntry) (k : ℕ)
    → Fits l
    → (l.first_index ≤ s → s < k → term_of (get l s) ≡ some e.term)
    → IsCut l (suc s) es k
    → IsCut l s (e ∷ es) k
IsCut-cons l s e es k w a c = record {
  above_first = c.above_first;
  above_start = omega (arith, c.above_start);
  within = c.within;
  agrees = λ i e' g le f lt. elim (Bool-cases (i == s)) [
    | inl here ↦ let q : i ≡ s = ground arith in ground (arith, a, get_elem?_here e es i s q)
    | inr later ↦
        c.agrees i e' (sym (get_elem?_later e es i s (ground arith)) ∙ g) (ground arith) f lt
  ];
  reason = elim c.reason [
    | inl all ↦ inl all
    | inr (e', g, ne) ↦ inr (e', get_elem?_later e es k s (c.above_start) ∙ g, ne)
  ];
}

drop_conflicts_step :
    (l : RaftLog) (s : ℕ) (e : LogEntry) (es : List LogEntry)
    → e.index ≡ s
    → ((get l s ≡ none) × (drop_conflicts l (e ∷ es) ≡ drop_conflicts l es))
      ⊎ ((get l s ≢ none)
          × (term_of (get l s) ≡ some e.term)
          × (drop_conflicts l (e ∷ es) ≡ drop_conflicts l es))
      ⊎ ((get l s ≢ none)
          × (term_of (get l s) ≢ some e.term)
          × (drop_conflicts l (e ∷ es) ≡ truncate l s))
unfolding drop_conflicts
drop_conflicts_step l s e es x = ground arith

not-none_in_range :
    (l : RaftLog) (i : ℕ) → Fits l → get l i ≢ none → (l.first_index ≤ i) × (i ≤ last_index l)
unfolding get
not-none_in_range l i w g = ground arith

pub drop_conflicts-IsCut :
    (l : RaftLog) (s : ℕ) (es : List LogEntry)
    → Fits l
    → IsIndexed s es
    → s ≤ last_index l + 1
    → (k : ℕ) × (drop_conflicts l es ≡ truncate l k) × IsCut l s es k
unfolding drop_conflicts
drop_conflicts-IsCut l s [] w x h = (
  last_index l + 1,
  sym (cut_end l w),
  record {
    above_first = omega (arith, last_index_lem l w);
    above_start = h;
    within = omega arith;
    agrees = λ i e g. cc;
    reason = inl refl;
  },
)
drop_conflicts-IsCut l s (e ∷ es) w x h = elim (Bool-cases (ltb (last_index l) s)) [
  | inl beyond ↦ (
    last_index l + 1,
    drop_conflicts_beyond l s (e ∷ es) x (ltb→lt _ _ beyond) ∙ sym (cut_end l w),
    record {
      above_first = omega (arith, last_index_lem l w);
      above_start = h;
      within = omega arith;
      agrees = λ i e g le f lt. absurd (omega (arith, ltb→lt _ _ beyond));
      reason = inl refl;
    },
  )
  | inr inside ↦
      let (k, q, c) = drop_conflicts-IsCut l (suc s) es w x.1 (ground arith) in
      elim (drop_conflicts_step l s e es x.0) [
        | inl (missing, p) ↦ (
          k,
          p ∙ q,
          IsCut-cons l s e es k w (λ f lt. absurd (get-found l s w f (ground arith) missing)) c,
        )
        | inr (inl (found, same, p)) ↦ (k, p ∙ q, IsCut-cons l s e es k w (λ f lt. same) c)
        | inr (inr (found, differs, p)) ↦ (
          s,
          p,
          record {
            above_first = (not-none_in_range l s w found).0;
            above_start = omega arith;
            within = h;
            agrees = λ i e g le f lt. absurd (omega arith);
            reason = inr (e, get_elem?_here e es s s refl, differs);
          },
        )
      ]
]
