-- ===== src/Raft/Node/Append.antt =====
-- byoridb-storage/src/raft/node.rs: `handle_append_entries`, the follower's side of replication.
pub mod Cut
pub mod Store
pub mod Cases
pub mod Matching
pub mod Commit
use byoridb.Base.{
  ℕ, Bool, true, false, not, List, [], ◌∷◌, none, some, retain, is_empty, min, ltb, ◌==◌,
  if◌then◌else◌,
}
use byoridb.Raft.Types.{LogEntry, AppendEntriesRequest, AppendEntriesResponse}
use byoridb.Raft.Log.Defs.{RaftLog, last_index, get, term, append, truncate}
use byoridb.Raft.Node.Defs.{
  Env, RaftNode, is_candidate, reset_election_timeout, become_follower, catch_up,
}

-- The first entry whose term differs from the log's at its index cuts the log there.
unfoldable pub drop_conflicts : RaftLog → List LogEntry → RaftLog
drop_conflicts l [] = l
drop_conflicts l (e ∷ es) = elim (get l e.index) [
  | none ↦ drop_conflicts l es
  | some existing ↦ elim (existing.term == e.term) [
    | true ↦ drop_conflicts l es
    | false ↦ truncate l e.index
  ]
]

-- `if !req.entries.is_empty() { … }`
unfoldable pub store_entries : RaftLog → List LogEntry → RaftLog
unfolding drop_conflicts
store_entries l es =
    if is_empty es
    then l
    else (let l' = drop_conflicts l es in
        let entries_to_append = retain (λ e. ltb (last_index l') e.index) es in
        if is_empty entries_to_append then l' else append l' entries_to_append)

unfoldable pub advance_commit : RaftNode → ℕ → RaftNode
advance_commit n leader_commit =
    if ltb n.commit_index leader_commit
    then record n { commit_index = min leader_commit (last_index n.log) }
    else n

abbrev pub answer : RaftNode → Bool → RaftNode × AppendEntriesResponse
answer n success =
    (n, record { term = n.current_term; success = success; match_index = last_index n.log })

-- After the consistency check has passed.
unfoldable pub accept_entries : RaftNode → AppendEntriesRequest → RaftNode × AppendEntriesResponse
unfolding advance_commit
accept_entries n req =
    answer (advance_commit (record n { log = store_entries n.log req.entries }) req.leader_commit)
      true

-- `if req.prev_log_index > 0 { match self.log.term(req.prev_log_index) … }`
unfoldable pub check_prev : RaftNode → AppendEntriesRequest → RaftNode × AppendEntriesResponse
unfolding accept_entries
check_prev n req =
    if ltb 0 req.prev_log_index
    then (elim (term n.log req.prev_log_index) [
      | none ↦ answer n false
      | some t ↦
          if not (t == req.prev_log_term)
          then answer (record n { log = truncate n.log req.prev_log_index }) false
          else accept_entries n req
    ])
    else accept_entries n req

module _ (env : Env) where
  -- A message of the current term: the sender is the leader.
  unfoldable pub follow_leader : RaftNode → AppendEntriesRequest → RaftNode
  unfolding reset_election_timeout become_follower
  follow_leader n req =
      let n' : RaftNode = record (reset_election_timeout env n) {
        leader_id = some req.leader_id;
      } in
      if is_candidate n'.state then become_follower env n' req.term (some req.leader_id) else n'

  unfoldable pub handle_append_entries :
      RaftNode → AppendEntriesRequest → RaftNode × AppendEntriesResponse
  handle_append_entries n req =
      let n' : RaftNode = catch_up env n req.term (some req.leader_id) in
      if ltb req.term n'.current_term
      then (n', record { term = n'.current_term; success = false; match_index = 0 })
      else check_prev (follow_leader n' req) req
