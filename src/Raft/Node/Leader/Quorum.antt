-- ===== src/Raft/Node/Leader/Quorum.antt =====
-- byoridb-storage/src/raft/node.rs, `try_advance_commit_index`: what the chosen index means.
use byoridb.Base.{
  ◌*◌, sym, Bool, true, false, All, HashMap, lookup, contains, ◌==◌, ℕ, ◌+◌, ◌/◌, ◌≤◌, ◌<◌, ◌≡◌,
  ◌≢◌, ◌⊎◌, inl, inr, refl, ◌∙◌, List, [], ◌∷◌, ◌++◌, none, some, Bool-cases, Option-cases, length,
  values, leb, if◌then◌else◌, arith, u64_mod,
}
use byoridb.Base.Distinct.{
  NoRepeat, hit, keys_where, contains-keys_where, keys_where-NoRepeat, All-contains,
}
use byoridb.Raft.Types.{LogEntry, majority}
use byoridb.Raft.Log.Defs.{RaftLog, last_index, get, term}
use byoridb.Raft.Node.Defs.{RaftNode, LeaderState}
use byoridb.Raft.Node.Leader.{majority_index, try_advance_commit_index}
use byoridb.Raft.Node.Leader.Tables.{IsOfVoters}
use byoridb.Raft.Node.Leader.Counts.{count_from, majority_index_quorum, majority_index_total}

-- The indices that a leader counts: its followers' and its own.
abbrev pub indices : RaftNode → LeaderState → List ℕ
indices n s = values s.match_index ++ last_index n.log ∷ []

-- Whether a node is known to have the log up to an index: the node itself by its log.
abbrev pub has_up_to : RaftNode → LeaderState → ℕ → ℕ → Bool
has_up_to n s index v =
    if v == n.id then leb index (last_index n.log) else hit (leb index) (lookup v s.match_index)

-- Different voters that are known to have the log up to an index, more than half of the voters.
pub record IsReplicated (n : RaftNode) (s : LeaderState) (index : ℕ) : Type 0 where
  pub ids : List ℕ
  pub different : NoRepeat ids
  pub voters : All (λ v. contains n.config.voters v ≡ true) ids
  pub reached : All (λ v. has_up_to n s index v ≡ true) ids
  pub enough : length n.config.voters < 2 * length ids

length-reaching :
    (index : ℕ) (m : HashMap ℕ) → length (keys_where (leb index) m) ≡ count_from index (values m)
unfolding values
length-reaching index [] = refl
length-reaching index ((v, i) ∷ m) = ground (arith, length-reaching index m)

count_from-append :
    (v : ℕ) (xs ys : List ℕ) → count_from v (xs ++ ys) ≡ count_from v xs + count_from v ys
count_from-append v [] ys = omega arith
count_from-append v (x ∷ xs) ys = ground (arith, count_from-append v xs ys)

count_from-one : (v x : ℕ) → count_from v (x ∷ []) ≤ 1
count_from-one v x = ground arith

-- Who is listed is another voter.
listed-other :
    (n : RaftNode) (s : LeaderState) (index v : ℕ)
    → IsOfVoters n s
    → contains (keys_where (leb index) s.match_index) v ≡ true
    → (v ≢ n.id)
      × (contains n.config.voters v ≡ true)
      × (hit (leb index) (lookup v s.match_index) ≡ true)
listed-other n s index v t e =
    let found : hit (leb index) (lookup v s.match_index) ≡ true =
      sym (contains-keys_where (leb index) s.match_index t.distinct v) ∙ e in
    elim (Option-cases (lookup v s.match_index)) [
      | inl none_there ↦ let bad : hit (leb index) none ≡ true = rw none_there at found in cc
      | inr (i, there) ↦ let (other, voter) = t.others v i there in (other, voter, found)
    ]

not_listed :
    (n : RaftNode) (s : LeaderState) (index : ℕ)
    → IsOfVoters n s
    → contains (keys_where (leb index) s.match_index) n.id ≡ false
not_listed n s index t = elim (Bool-cases (contains (keys_where (leb index) s.match_index) n.id)) [
  | inl y ↦ absurd ((listed-other n s index n.id t y).0 refl)
  | inr d ↦ d
]

-- A majority of the counted indexes is one of the voters.
counted-IsReplicated :
    (n : RaftNode) (s : LeaderState) (index : ℕ)
    → IsOfVoters n s
    → index ≤ last_index n.log
    → majority n.config ≤ count_from index (indices n s)
    → IsReplicated n s index
unfolding majority
counted-IsReplicated n s index t h c =
    let m = s.match_index in
    let others = keys_where (leb index) m in
    let other = λ (v : ℕ) (e : contains others v ≡ true). listed-other n s index v t e in
    record {
      ids = n.id ∷ others;
      different = (not_listed n s index t, keys_where-NoRepeat (leb index) m t.distinct);
      voters = (t.member, All-contains _ others (λ v e. (other v e).1));
      reached = (
        ground arith,
        All-contains _ others (λ v e.
            let (apart, voter, found) = listed-other n s index v t e in
            ground (arith, apart, found)),
      );
      enough = omega (
        arith,
        c,
        length-reaching index m,
        count_from-append index (values m) (last_index n.log ∷ []),
        count_from-one index (last_index n.log),
      );
    }

-- A term that the log answers for an index from its first one on is that of an entry.
term-get :
    (l : RaftLog) (i t : ℕ)
    → 0 < i
    → l.first_index ≤ i
    → term l i ≡ some t
    → (e : LogEntry) × (get l i ≡ some e) × (e.term ≡ t)
unfolding term
term-get l i t z h e = elim (Option-cases (get l i)) [
  | inl n ↦ absurd (ground (arith, n))
  | inr (entry, g) ↦ (entry, g, ground (arith, g))
]

get-last_index : (l : RaftLog) (i : ℕ) (e : LogEntry) → get l i ≡ some e → i ≤ last_index l
unfolding get
get-last_index l i e g = ground (arith, g)

chosen_index :
    (n m : RaftNode) (s : LeaderState)
    → n.leader_state ≡ some s
    → length n.config.voters < u64_mod
    → length (indices n s) < u64_mod
    → try_advance_commit_index n ≡ some m
    → (m ≡ n)
      ⊎ ((n.commit_index < m.commit_index)
          × (m ≡ record n { commit_index = m.commit_index })
          × (term n.log m.commit_index ≡ some n.current_term)
          × (majority n.config ≤ count_from m.commit_index (indices n s)))
unfolding try_advance_commit_index majority
chosen_index n m s l small fits e =
    elim (Option-cases (majority_index (indices n s) (length n.config.voters / 2 + 1))) [
      | inl panic ↦ ground arith
      | inr (v, chosen) ↦
          ground (arith, majority_index_quorum (indices n s) (length n.config.voters / 2 + 1) v)
    ]

-- When the choice of a new commit index returns, on a voter with the leader's tables, whose table
-- of known indexes is of other voters, each once, whose log is not compacted beyond the commit
-- index, and with fewer than 2^64 voters and indexes, either nothing changes, or only the commit
-- index changes: it moves up to an entry of the current term, and different voters, each the node
-- itself with its own last index or one that the table records as having the log up to it, are
-- more than half of the voters.
pub try_advance_commit_index_quorum :
    (n m : RaftNode) (s : LeaderState)
    → n.leader_state ≡ some s
    → IsOfVoters n s
    → n.log.first_index ≤ n.commit_index + 1
    → length n.config.voters < u64_mod
    → length (indices n s) < u64_mod
    → try_advance_commit_index n ≡ some m
    → (m ≡ n)
      ⊎ ((n.commit_index < m.commit_index)
          × (m ≡ record n { commit_index = m.commit_index })
          × ((e : LogEntry) × (get n.log m.commit_index ≡ some e) × (e.term ≡ n.current_term))
          × IsReplicated n s m.commit_index)
try_advance_commit_index_quorum n m s l t compacted small fits e =
    elim (chosen_index n m s l small fits e) [
      | inl kept ↦ inl kept
      | inr (up, only, in_term, count) ↦
          let (entry, found, term_eq) =
            term-get n.log m.commit_index n.current_term (omega arith) (omega arith) in_term in
          inr (
            up,
            only,
            (entry, found, term_eq),
            counted-IsReplicated n s m.commit_index t
                (get-last_index n.log m.commit_index entry found) count,
          )
    ]

-- The choice of a new commit index does not panic on a node with the leader's tables and at least
-- a majority of counted indexes, fewer than 2^64.
pub try_advance_commit_index_total :
    (n : RaftNode) (s : LeaderState)
    → n.leader_state ≡ some s
    → majority n.config ≤ length (indices n s)
    → length (indices n s) < u64_mod
    → try_advance_commit_index n ≢ none
unfolding try_advance_commit_index majority
try_advance_commit_index_total n s l h fits =
    ground (arith, majority_index_total (indices n s) (length n.config.voters / 2 + 1))
