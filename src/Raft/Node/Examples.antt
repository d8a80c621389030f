-- ===== src/Raft/Node/Examples.antt =====
-- Runs of byoridb-storage/src/raft/node.rs on a cluster of three voters: the theorems at inputs
-- that meet their hypotheses.
use byoridb.Base.{
  lookup, ℕ, ◌+◌, ◌≤◌, ◌<◌, ◌≡◌, ◌⊎◌, ◌↔◌, inr, refl, true, [], ◌∷◌, none, some, insert, values,
  arith, add64, sub64,
}
use byoridb.Base.Distinct.{AreDistinct}
use byoridb.Raft.Types.{
  follower, candidate, LogEntry, noop, RequestVoteRequest, RequestVoteResponse,
  AppendEntriesRequest, majority,
}
use byoridb.Raft.Log.Defs.{
  last_index, last_term, get, term, term_of, append, truncate, is_up_to_date,
}
use byoridb.Raft.Log.Reads.{IsWf}
use byoridb.Raft.Node.Defs.{Env, RaftNode, default_config, become_candidate, catch_up}
use byoridb.Raft.Node.Votes.{handle_request_vote, handle_request_vote_response}
use byoridb.Raft.Node.Append.{
  handle_append_entries, check_prev, follow_leader, accept_entries, store_entries, drop_conflicts,
}
use byoridb.Raft.Node.Append.Matching.{
  IsContiguous, handle_append_entries-IsWf, handle_append_entries_matches,
}
use byoridb.Raft.Node.Append.Commit.{RespectsCommit, KeepsCommit, handle_append_entries-KeepsCommit}
use byoridb.Raft.Node.Events.{Reach, here, next, step, vote_request}
use byoridb.Raft.Node.Events.Terms.{HasRole, Reach-Change}
use byoridb.Raft.Node.Events.Ballots.{
  UpToDate, handle_request_vote_iff, one_vote_per_term, step_down_votes_again,
}
use byoridb.Raft.Node.Events.Elected.{MajorityOfVotes, elected_iff}

abbrev pub env : Env
env = record { now = λ k. 1000 + k; gen_range = λ k lo hi. lo }

abbrev pub entry : ℕ → ℕ → LogEntry
entry t i = record { term = t; index = i; command = noop }

abbrev pub node : RaftNode
node = record {
  id = 1;
  space_id = 1;
  part_id = 1;
  state = follower;
  current_term = 2;
  voted_for = none;
  commit_index = 1;
  last_applied = 1;
  leader_state = none;
  log = record {
    entries = entry 1 1 ∷ entry 1 2 ∷ entry 1 3 ∷ [];
    first_index = 1;
    snapshot_term = 0;
  };
  config = record { nodes = []; voters = 1 ∷ 2 ∷ 3 ∷ [] };
  raft_config = default_config;
  leader_id = none;
  election_deadline = 500;
  votes_received = [];
  draws = 1;
}

node-IsWf : IsWf node.log
node-IsWf = record { first_pos = omega arith; bounded = omega arith; indexed = omega arith }

-- Entries 2 and 3 of term 2 replace those of term 1, behind entry 1.
abbrev entries_request_2 : AppendEntriesRequest
entries_request_2 = record {
  term = 2;
  leader_id = 2;
  prev_log_index = 1;
  prev_log_term = 1;
  entries = entry 2 2 ∷ entry 2 3 ∷ [];
  leader_commit = 2;
}

contiguous : IsContiguous entries_request_2
contiguous = (omega arith, omega arith)

-- The follower that took these entries holds them, and has committed the first.
replicated :
    let (m, r) = handle_append_entries env node entries_request_2 in
    (m.log.entries ≡ entry 1 1 ∷ entry 2 2 ∷ entry 2 3 ∷ [])
    × (m.commit_index ≡ 2)
    × (r.match_index ≡ 3)
unfolding handle_append_entries catch_up follow_leader check_prev accept_entries store_entries
    drop_conflicts get term last_index append truncate add64 sub64
replicated = (refl, refl, refl)

succeeds : (handle_append_entries env node entries_request_2).1.success ≡ true
unfolding handle_append_entries catch_up follow_leader check_prev accept_entries get term last_index
    add64 sub64
succeeds = refl

matches_example : term_of (get (handle_append_entries env node entries_request_2).0.log 3) ≡ some 2
matches_example =
    handle_append_entries_matches env node entries_request_2 node-IsWf contiguous succeeds 3
      (entry 2 3) (omega arith) (omega arith) refl

IsWf_example : IsWf (handle_append_entries env node entries_request_2).0.log
IsWf_example = handle_append_entries-IsWf env node entries_request_2 node-IsWf contiguous

respects : RespectsCommit node entries_request_2
unfolding last_index term get add64 sub64
respects = record {
  within = omega arith;
  prev = λ h. inr refl;
  entries = λ i e f c p g. absurd (omega arith);
}

KeepsCommit_example : KeepsCommit node (handle_append_entries env node entries_request_2).0
KeepsCommit_example =
    handle_append_entries-KeepsCommit env node entries_request_2 node-IsWf contiguous respects

-- Candidates 2 and 3 ask for the vote of term 3.
abbrev asks : ℕ → RequestVoteRequest
asks c = record { term = 3; candidate_id = c; last_log_index = 3; last_log_term = 1 }

abbrev voter : RaftNode
voter = (handle_request_vote env node (asks 2)).0

granted : (handle_request_vote env node (asks 2)).1.vote_granted ≡ true
unfolding handle_request_vote is_up_to_date last_index last_term add64 sub64
granted = refl

voter_follows : voter.state ≡ follower
unfolding handle_request_vote is_up_to_date last_index last_term add64 sub64
voter_follows = refl

-- The vote of term 3 is refused to candidate 3 before candidate 2 asks again.
abbrev asked_by_3 : RaftNode
asked_by_3 = (handle_request_vote env voter (asks 3)).0

granted_again : (handle_request_vote env asked_by_3 (asks 2)).1.vote_granted ≡ true
unfolding handle_request_vote is_up_to_date last_index last_term add64 sub64
granted_again = refl

reached : Reach env voter asked_by_3
unfolding step handle_request_vote is_up_to_date last_index last_term add64 sub64
reached = next here (vote_request (asks 3)) (omega arith) refl

one_vote_per_term_example : (asks 2).candidate_id ≡ (asks 2).candidate_id
one_vote_per_term_example =
    one_vote_per_term env node asked_by_3 (asks 2) (asks 2) granted voter_follows reached
      granted_again refl

handle_request_vote_iff_example :
    ((handle_request_vote env node (asks 2)).1.vote_granted ≡ true) ↔ (
      UpToDate node.log 3 1
      × ((2 < 3)
          ⊎ ((node.current_term ≡ 3) × ((node.voted_for ≡ none) ⊎ (node.voted_for ≡ some 2)))))
handle_request_vote_iff_example = handle_request_vote_iff env node (asks 2)

abbrev standing : RaftNode
standing = (become_candidate env node).0

standing_candidate : standing.state ≡ candidate
unfolding become_candidate
standing_candidate = refl

abbrev leads : AppendEntriesRequest
leads = record {
  term = 3;
  leader_id = 2;
  prev_log_index = 0;
  prev_log_term = 0;
  entries = [];
  leader_commit = 1;
}

standing_term : leads.term ≡ standing.current_term
unfolding become_candidate add64
standing_term = refl

asks_term : (asks 3).term ≡ standing.current_term
unfolding become_candidate add64
asks_term = refl

asks_UpToDate : UpToDate (handle_append_entries env standing leads).0.log 3 1
unfolding handle_append_entries catch_up follow_leader check_prev accept_entries store_entries
    become_candidate last_index last_term add64 sub64
asks_UpToDate = inr (refl, omega arith)

-- Node 1 votes for itself and then for node 3, both in term 3.
step_down_votes_again_example :
    ((handle_append_entries env standing leads).0.voted_for ≡ none)
    × ((handle_request_vote env
          (handle_append_entries env standing leads).0
          (asks 3)).1.vote_granted
        ≡ true)
step_down_votes_again_example =
    step_down_votes_again env standing leads (asks 3) standing_candidate standing_term asks_term
      asks_UpToDate

abbrev yes_vote : RequestVoteResponse
yes_vote = record { term = 3; vote_granted = true }

standing_votes : AreDistinct standing.votes_received
unfolding AreDistinct become_candidate insert lookup
standing_votes = (refl, tt)

elected_iff_example : ((handle_request_vote_response env standing 2 yes_vote).1 ≡ true) ↔ (
    (standing.state ≡ candidate)
    × (3 ≤ standing.current_term)
    × MajorityOfVotes standing 2 yes_vote)
elected_iff_example = elected_iff env standing 2 yes_vote standing_votes

abbrev elected : RaftNode
elected = (handle_request_vote_response env standing 2 yes_vote).0

wins : (handle_request_vote_response env standing 2 yes_vote).1 ≡ true
unfolding handle_request_vote_response become_candidate majority insert values add64
wins = refl

Reach-Change_example : (node.current_term ≤ voter.current_term) × (HasRole node → HasRole voter)
unfolding step
Reach-Change_example =
    Reach-Change env {n = node} {m = voter} (next here (vote_request (asks 2)) (omega arith) refl)
