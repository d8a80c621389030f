-- ===== src/Raft/Node/Votes.antt =====
-- byoridb-storage/src/raft/node.rs: `handle_request_vote` and `handle_request_vote_response`.
use byoridb.Base.{
  ℕ, suc, Bool, true, false, not, List, [], ◌∷◌, Option, none, some, insert, values, ltb, leb, ◌==◌,
  if◌then◌else◌,
}
use byoridb.Raft.Types.{RequestVoteRequest, RequestVoteResponse, majority}
use byoridb.Raft.Log.Defs.{is_up_to_date}
use byoridb.Raft.Node.Defs.{
  Env, RaftNode, is_candidate, reset_election_timeout, become_follower, catch_up, become_leader,
}

abbrev pub voted_for_other : Option ℕ → ℕ → Bool
voted_for_other none c = false
voted_for_other (some v) c = not (v == c)

abbrev pub count_true : List Bool → ℕ
count_true [] = 0
count_true (true ∷ vs) = suc (count_true vs)
count_true (false ∷ vs) = count_true vs

module _ (env : Env) where
  -- The chain of tests, after the term has been caught up.
  unfoldable pub decide_vote : RaftNode → RequestVoteRequest → RaftNode × RequestVoteResponse
  unfolding reset_election_timeout
  decide_vote n req =
      let refused : RequestVoteResponse = record { term = n.current_term; vote_granted = false } in
      if ltb req.term n.current_term
      then (n, refused)
      else if voted_for_other n.voted_for req.candidate_id
      then (n, refused)
      else if not (is_up_to_date n.log req.last_log_index req.last_log_term)
      then (n, refused)
      else (
        reset_election_timeout env (record n { voted_for = some req.candidate_id }),
        record { term = n.current_term; vote_granted = true },
      )

  unfoldable pub handle_request_vote :
      RaftNode → RequestVoteRequest → RaftNode × RequestVoteResponse
  unfolding catch_up decide_vote
  handle_request_vote n req = decide_vote (catch_up env n req.term none) req

  -- The Boolean says whether the node has become the leader.
  unfoldable pub handle_request_vote_response : RaftNode → ℕ → RequestVoteResponse → RaftNode × Bool
  unfolding become_follower become_leader
  handle_request_vote_response n from resp =
      if not (is_candidate n.state)
      then (n, false)
      else if ltb n.current_term resp.term
      then (become_follower env n resp.term none, false)
      else (let n' : RaftNode = record n {
        votes_received = insert from resp.vote_granted n.votes_received;
      } in
          if leb (majority n.config) (count_true (values n'.votes_received))
          then (become_leader env n', true)
          else (n', false))
