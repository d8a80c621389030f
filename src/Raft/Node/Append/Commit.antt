-- ===== src/Raft/Node/Append/Commit.antt =====
-- byoridb-storage/src/raft/node.rs, `handle_append_entries`: the committed part of the log.
use byoridb.Base.{
  ℕ, ◌+◌, ◌-◌, ◌≤◌, ◌<◌, ◌≡◌, ◌≢◌, ◌⊎◌, inl, inr, none, some, ltb, ltb→lt, lt→ltb, get_elem?, arith,
  Bool-cases, Option-cases,
}
use byoridb.Raft.Types.{LogEntry, AppendEntriesRequest}
use byoridb.Raft.Log.Defs.{RaftLog, last_index, get, term, term_of, truncate}
use byoridb.Raft.Log.Reads.{IsWf, Fits, get-truncate}
use byoridb.Raft.Node.Defs.{Env, RaftNode}
use byoridb.Raft.Node.Append.{store_entries, handle_append_entries}
use byoridb.Raft.Node.Append.Cut.{IsCut}
use byoridb.Raft.Node.Append.Store.{last_index-store_entries, le-last_index-truncate}
use byoridb.Raft.Node.Append.Cases.{commit_after, handle_append_entries-Outcome}
use byoridb.Raft.Node.Append.Matching.{IsContiguous, Fits-of_IsWf, prev_within, term-some-le}

-- The request does not contradict what the node has committed.
pub record RespectsCommit (n : RaftNode) (req : AppendEntriesRequest) : Type 0 where
  pub within : n.commit_index ≤ last_index n.log
  pub prev :
      req.prev_log_index ≤ n.commit_index
      → (term n.log req.prev_log_index ≡ none)
        ⊎ (term n.log req.prev_log_index ≡ some req.prev_log_term)
  pub entries :
      (i : ℕ) (e : LogEntry)
      → n.log.first_index ≤ i
      → i ≤ n.commit_index
      → req.prev_log_index < i
      → get_elem? req.entries (i - (req.prev_log_index + 1)) ≡ some e
      → term_of (get n.log i) ≡ some e.term

-- The committed entries stand, and the commit index neither falls nor passes the log's end.
abbrev pub KeepsCommit : RaftNode → RaftNode → Type 0
KeepsCommit n m =
    ((i : ℕ) → i ≤ n.commit_index → get m.log i ≡ get n.log i)
    × (n.commit_index ≤ m.commit_index)
    × (m.commit_index ≤ last_index m.log)

term-known-le : (l : RaftLog) (i : ℕ) → Fits l → term l i ≢ none → i ≤ last_index l
term-known-le l i w known = elim (Option-cases (term l i)) [
  | inl missing ↦ absurd (known missing)
  | inr (t, e) ↦ term-some-le l i t w e
]

cut_above_commit :
    (n : RaftNode) (req : AppendEntriesRequest) (k : ℕ)
    → RespectsCommit n req
    → IsCut n.log (req.prev_log_index + 1) req.entries k
    → n.commit_index < k
cut_above_commit n req k v c = elim (Bool-cases (ltb n.commit_index k)) [
  | inl above ↦ ltb→lt n.commit_index k above
  | inr below ↦ elim c.reason [
    | inl all ↦ omega (arith, v.within)
    | inr (e, g, ne) ↦
        absurd (ne (v.entries k e c.above_first (ground arith) (omega (arith, c.above_start)) g))
  ]
]

commit_after_bounds :
    (n : RaftNode) (l : RaftLog) (c : ℕ)
    → n.commit_index ≤ last_index l
    → (n.commit_index ≤ commit_after n l c) × (commit_after n l c ≤ last_index l)
commit_after_bounds n l c h = ground arith

module _ (env : Env) (n : RaftNode) (req : AppendEntriesRequest) (w : IsWf n.log)
    (x : IsContiguous req) (v : RespectsCommit n req) where
  accepted_keeps :
      (m : RaftNode)
      → (0 < req.prev_log_index → term n.log req.prev_log_index ≡ some req.prev_log_term)
      → m.log ≡ store_entries n.log req.entries
      → m.commit_index ≡ commit_after n m.log req.leader_commit
      → KeepsCommit n m
  accepted_keeps m p e q =
      let (k, c, r, last) =
        last_index-store_entries n.log (req.prev_log_index + 1) req.entries (Fits-of_IsWf n.log w)
          x.0 (prev_within n.log req.prev_log_index req.prev_log_term (Fits-of_IsWf n.log w) p)
          x.1 in
      let above : n.commit_index < k = cut_above_commit n req k v c in
      let inside : n.commit_index ≤ last_index m.log = rw e (omega arith) in
      let b = commit_after_bounds n m.log req.leader_commit inside in
      ((λ i h. rw e (r i (omega arith))), rw q b.0, rw q b.1)

  commit_below_mismatch :
      term n.log req.prev_log_index ≢ none
      → term n.log req.prev_log_index ≢ some req.prev_log_term
      → n.commit_index < req.prev_log_index
  commit_below_mismatch known ne = elim (Bool-cases (ltb n.commit_index req.prev_log_index)) [
    | inl above ↦ ltb→lt n.commit_index req.prev_log_index above
    | inr below ↦ elim (v.prev (ground arith)) [
      | inl missing ↦ absurd (known missing)
      | inr same ↦ absurd (ne same)
    ]
  ]

  mismatched_keeps :
      (m : RaftNode)
      → n.commit_index < req.prev_log_index
      → req.prev_log_index ≤ last_index n.log
      → m.log ≡ truncate n.log req.prev_log_index
      → m.commit_index ≡ n.commit_index
      → KeepsCommit n m
  mismatched_keeps m below known e q =
      let p = req.prev_log_index in
      let w' : Fits n.log = Fits-of_IsWf n.log w in
      let last : p ≤ last_index m.log + 1 =
        rw e (le-last_index-truncate n.log p w' (omega arith)) in
      (
        (λ i h. rw (e, get-truncate n.log p i w', lt→ltb i p (omega arith))),
        omega (arith, q),
        omega (arith, q, last, below),
      )

  -- A request with contiguous entries that does not contradict what a node with a well-formed log
  -- has committed leaves every entry up to the commit index as it was, does not lower the commit
  -- index, and leaves the commit index within the log.
  pub handle_append_entries-KeepsCommit : KeepsCommit n (handle_append_entries env n req).0
  handle_append_entries-KeepsCommit = elim (handle_append_entries-Outcome env n req) [
    | inl (s, e, q) ↦ ((λ i h. rw e), omega (arith, q), rw (e, q) v.within)
    | inr (inl (s, pos, known, ne, e, q)) ↦
        mismatched_keeps (handle_append_entries env n req).0 (commit_below_mismatch known ne)
          (term-known-le n.log req.prev_log_index (Fits-of_IsWf n.log w) known) e q
    | inr (inr (s, p, e, q)) ↦ accepted_keeps (handle_append_entries env n req).0 p e q
  ]
