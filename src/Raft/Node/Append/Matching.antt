-- ===== src/Raft/Node/Append/Matching.antt =====
-- byoridb-storage/src/raft/node.rs, `handle_append_entries`: what the follower's log and commit
-- index are after a request whose entries start behind `prev_log_index`.
use byoridb.Base.{
  ℕ, ◌+◌, ◌-◌, ◌≤◌, ◌<◌, ◌≡◌, inl, inr, true, some, ltb, ltb→lt, lt→ltb, length, get_elem?,
  if◌then◌else◌, arith, Bool-cases, u64_mod,
}
use byoridb.Raft.Types.{LogEntry, AppendEntriesRequest}
use byoridb.Raft.Log.Defs.{RaftLog, last_index, get, term, term_of}
use byoridb.Raft.Log.Reads.{IsIndexed, IsWf, Fits, last_index_lem}
use byoridb.Raft.Log.Updates.{truncate-IsWf}
use byoridb.Raft.Node.Defs.{Env, RaftNode}
use byoridb.Raft.Node.Append.{handle_append_entries}
use byoridb.Raft.Node.Append.Cut.{IsCut}
use byoridb.Raft.Node.Append.Store.{get-store_entries, store_entries-IsWf}
use byoridb.Raft.Node.Append.Cases.{Accepted, handle_append_entries-Outcome}

-- The entries of a request follow `prev_log_index` one by one, and their indexes fit.
abbrev pub IsContiguous : AppendEntriesRequest → Type 0
IsContiguous req =
    IsIndexed (req.prev_log_index + 1) req.entries
    × (req.prev_log_index + 1 + length req.entries < u64_mod)

pub Fits-of_IsWf : (l : RaftLog) → IsWf l → Fits l
Fits-of_IsWf l w = (w.first_pos, w.bounded)

-- The term of an index is known only up to the end of the log.
pub term-some-le : (l : RaftLog) (i : ℕ) (t : ℕ) → Fits l → term l i ≡ some t → i ≤ last_index l
unfolding term get
term-some-le l i t w e = ground (arith, last_index_lem l w)

pub prev_within :
    (l : RaftLog) (p t : ℕ) → Fits l → (0 < p → term l p ≡ some t) → p + 1 ≤ last_index l + 1
prev_within l p t w k = elim (Bool-cases (ltb 0 p)) [
  | inl pos ↦ omega (arith, term-some-le l p t w (k (ltb→lt 0 p pos)))
  | inr zero ↦ ground arith
]

module _ (env : Env) (n : RaftNode) (req : AppendEntriesRequest) (w : IsWf n.log)
    (x : IsContiguous req) where
  -- A request with contiguous entries leaves a well-formed log well-formed on every branch:
  -- refused, cut at a mismatch, or accepted.
  pub handle_append_entries-IsWf : IsWf (handle_append_entries env n req).0.log
  handle_append_entries-IsWf = elim (handle_append_entries-Outcome env n req) [
    | inl r ↦ rw r.1 w
    | inr (inl r) ↦ rw r.4 (truncate-IsWf n.log req.prev_log_index w)
    | inr (inr r) ↦ rw r.2 (
        store_entries-IsWf n.log (req.prev_log_index + 1) req.entries (Fits-of_IsWf n.log w) x.0
          (prev_within n.log req.prev_log_index req.prev_log_term (Fits-of_IsWf n.log w) r.1) x.1 w)
  ]

  -- A request that is answered with success.
  module _ (done : (handle_append_entries env n req).1.success ≡ true) where
    accepted :
        Accepted n req (handle_append_entries env n req).0 (handle_append_entries env n req).1
    accepted = elim (handle_append_entries-Outcome env n req) [
      | inl r ↦ absurd (cc)
      | inr (inl r) ↦ absurd (cc)
      | inr (inr r) ↦ r
    ]

    stored :
        (k : ℕ) × IsCut n.log (req.prev_log_index + 1) req.entries k
        × ((i : ℕ)
            → get (handle_append_entries env n req).0.log i ≡ (
                if ltb i k
                then get n.log i
                else get_elem? req.entries (i - (req.prev_log_index + 1))))
    stored = rw accepted.2 (
        get-store_entries n.log (req.prev_log_index + 1) req.entries (Fits-of_IsWf n.log w) x.0
          (prev_within n.log req.prev_log_index req.prev_log_term (Fits-of_IsWf n.log w) accepted.1)
          x.1)

    -- When a follower with a well-formed log answers a request with contiguous entries with
    -- success, its log holds an entry of the same term at the index of every entry of the request
    -- that is not below the log's first index.
    pub handle_append_entries_matches :
        (i : ℕ) (e : LogEntry)
        → n.log.first_index ≤ i
        → req.prev_log_index < i
        → get_elem? req.entries (i - (req.prev_log_index + 1)) ≡ some e
        → term_of (get (handle_append_entries env n req).0.log i) ≡ some e.term
    handle_append_entries_matches i e f p g =
        let (k, c, r) = stored in
        elim (Bool-cases (ltb i k)) [
          | inl old ↦ rw (r i, old) (c.agrees i e g (omega arith) f (ltb→lt i k old))
          | inr new ↦ rw (r i, new, g)
        ]

    -- Such a request leaves the entries up to `prev_log_index` as they were.
    pub handle_append_entries_keeps :
        (i : ℕ)
        → i ≤ req.prev_log_index
        → get (handle_append_entries env n req).0.log i ≡ get n.log i
    handle_append_entries_keeps i p =
        let (k, c, r) = stored in rw (r i, lt→ltb i k (omega (arith, c.above_start)))
