-- ===== src/Raft/Node/Append/Cases.antt =====
-- byoridb-storage/src/raft/node.rs, `handle_append_entries`: its outcomes.
use byoridb.Base.{
  ℕ, ◌<◌, ◌≡◌, ◌≢◌, ◌⊎◌, inl, inr, refl, ◌∙◌, true, false, Option, none, some, min, ltb,
  if◌then◌else◌, arith, Bool-cases,
}
use byoridb.Raft.Types.{AppendEntriesRequest, AppendEntriesResponse}
use byoridb.Raft.Log.Defs.{RaftLog, last_index, term, truncate}
use byoridb.Raft.Node.Defs.{Env, RaftNode, catch_up}
use byoridb.Raft.Node.Append.{store_entries, check_prev, follow_leader, handle_append_entries}

abbrev pub commit_after : RaftNode → RaftLog → ℕ → ℕ
commit_after n l leader_commit =
    if ltb n.commit_index leader_commit then min leader_commit (last_index l) else n.commit_index

-- What `req` does to the log `l` and the commit index `c` of a node: refused with nothing
-- changed, refused with the log cut at a mismatch, or accepted.
abbrev pub Refused : RaftNode → RaftNode → AppendEntriesResponse → Type 0
Refused n m r = (r.success ≡ false) × (m.log ≡ n.log) × (m.commit_index ≡ n.commit_index)

abbrev pub Mismatched : RaftNode → AppendEntriesRequest → RaftNode → AppendEntriesResponse → Type 0
Mismatched n req m r =
    (r.success ≡ false)
    × (0 < req.prev_log_index)
    × (term n.log req.prev_log_index ≢ none)
    × (term n.log req.prev_log_index ≢ some req.prev_log_term)
    × (m.log ≡ truncate n.log req.prev_log_index)
    × (m.commit_index ≡ n.commit_index)

abbrev pub Accepted : RaftNode → AppendEntriesRequest → RaftNode → AppendEntriesResponse → Type 0
Accepted n req m r =
    (r.success ≡ true)
    × (0 < req.prev_log_index → term n.log req.prev_log_index ≡ some req.prev_log_term)
    × (m.log ≡ store_entries n.log req.entries)
    × (m.commit_index ≡ commit_after n m.log req.leader_commit)

abbrev pub Outcome : RaftNode → AppendEntriesRequest → RaftNode → AppendEntriesResponse → Type 0
Outcome n req m r = Refused n m r ⊎ Mismatched n req m r ⊎ Accepted n req m r

check_prev-Outcome :
    (n : RaftNode) (req : AppendEntriesRequest)
    → Outcome n req (check_prev n req).0 (check_prev n req).1
unfolding check_prev
check_prev-Outcome n req = ground arith

follow_leader_keeps :
    (env : Env) (n : RaftNode) (req : AppendEntriesRequest)
    → ((follow_leader env n req).log ≡ n.log)
      × ((follow_leader env n req).commit_index ≡ n.commit_index)
unfolding follow_leader
follow_leader_keeps env n req = ground arith

catch_up_keeps :
    (env : Env) (n : RaftNode) (t : ℕ) (leader_id : Option ℕ)
    → ((catch_up env n t leader_id).log ≡ n.log)
      × ((catch_up env n t leader_id).commit_index ≡ n.commit_index)
unfolding catch_up
catch_up_keeps env n t leader_id = ground arith

Outcome-same :
    (n n' m : RaftNode) (req : AppendEntriesRequest) (r : AppendEntriesResponse)
    → n'.log ≡ n.log
    → n'.commit_index ≡ n.commit_index
    → Outcome n' req m r
    → Outcome n req m r
Outcome-same n n' m req r e f o = ground arith

pub handle_append_entries-Outcome :
    (env : Env) (n : RaftNode) (req : AppendEntriesRequest)
    → Outcome n req (handle_append_entries env n req).0 (handle_append_entries env n req).1
unfolding handle_append_entries
handle_append_entries-Outcome env n req =
    let n' : RaftNode = catch_up env n req.term (some req.leader_id) in
    let f : RaftNode = follow_leader env n' req in
    let k = catch_up_keeps env n req.term (some req.leader_id) in
    let e = follow_leader_keeps env n' req in
    elim (Bool-cases (ltb req.term n'.current_term)) [
      | inl stale ↦ rw stale (inl (refl, k.0, k.1))
      | inr current ↦ rw current (
          Outcome-same n f (check_prev f req).0 req (check_prev f req).1 (e.0 ∙ k.0) (e.1 ∙ k.1)
            (check_prev-Outcome f req))
    ]
