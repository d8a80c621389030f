-- ===== src/Raft/Node/Events/Ballots.antt =====
-- byoridb-storage/src/raft/node.rs: whom a node grants its vote, over any events.
use byoridb.Base.{ℕ, ◌≤◌, ◌<◌, ◌≡◌, ◌≢◌, ◌⊎◌, ◌↔◌, inl, inr, refl, true, none, some, arith}
use byoridb.Raft.Types.{follower, candidate, RequestVoteRequest, AppendEntriesRequest}
use byoridb.Raft.Log.Defs.{RaftLog, last_index, last_term, is_up_to_date}
use byoridb.Raft.Node.Defs.{Env, RaftNode, catch_up}
use byoridb.Raft.Node.Votes.{handle_request_vote}
use byoridb.Raft.Node.Append.{handle_append_entries, check_prev, follow_leader}
use byoridb.Raft.Node.Events.{Reach, here, next}
use byoridb.Raft.Node.Events.Terms.{step-Change, Reach-Change}

-- The voter's log does not come behind the candidate's: by the last term, then the last index.
abbrev pub UpToDate : RaftLog → ℕ → ℕ → Type 0
UpToDate l index t = (last_term l < t) ⊎ ((t ≡ last_term l) × (last_index l ≤ index))

pub is_up_to_date_iff :
    (l : RaftLog) (index t : ℕ) → (is_up_to_date l index t ≡ true) ↔ UpToDate l index t
unfolding is_up_to_date
is_up_to_date_iff l index t = ground arith

-- A vote is granted exactly when the candidate's log is up to date, and either the request's term
-- is ahead, or it is the current term and the vote is free or already the candidate's.
pub handle_request_vote_iff :
    (env : Env) (n : RaftNode) (r : RequestVoteRequest)
    → ((handle_request_vote env n r).1.vote_granted ≡ true) ↔ (
        UpToDate n.log r.last_log_index r.last_log_term
        × ((n.current_term < r.term)
            ⊎ ((n.current_term ≡ r.term)
                × ((n.voted_for ≡ none) ⊎ (n.voted_for ≡ some r.candidate_id)))))
unfolding handle_request_vote
handle_request_vote_iff env n r =
    ground (arith, is_up_to_date_iff n.log r.last_log_index r.last_log_term)

pub granted_lem :
    (env : Env) (n : RaftNode) (r : RequestVoteRequest)
    → (handle_request_vote env n r).1.vote_granted ≡ true
    → ((handle_request_vote env n r).0.voted_for ≡ some r.candidate_id)
      × ((handle_request_vote env n r).0.current_term ≡ r.term)
      × ((handle_request_vote env n r).1.term ≡ r.term)
      × ((n.current_term ≡ r.term → (n.voted_for ≡ none) ⊎ (n.voted_for ≡ some r.candidate_id)))
unfolding handle_request_vote
granted_lem env n r g = ground arith

-- A follower that has voted keeps its vote for as long as its term lasts.
vote_stable :
    (env : Env) {n m : RaftNode}
    → Reach env n m
    → n.state ≡ follower
    → n.voted_for ≢ none
    → m.current_term ≡ n.current_term
    → (m.state ≡ follower) × (m.voted_for ≡ n.voted_for)
vote_stable env here f v e = (f, refl)
vote_stable env {n} (next {m = m} {k = k} r e h q) f v t =
    let c = step-Change env m k e h q in
    let same : m.current_term ≡ n.current_term = omega (arith, c.0, (Reach-Change env r).0) in
    let d = vote_stable env r f v same in ground arith

-- A node that grants a vote and is a follower then grants in that term only to the same
-- candidate, whatever events come between the two requests while its term is below the last
-- 64-bit value.
pub one_vote_per_term :
    (env : Env) (n m : RaftNode) (r s : RequestVoteRequest)
    → (handle_request_vote env n r).1.vote_granted ≡ true
    → (handle_request_vote env n r).0.state ≡ follower
    → Reach env (handle_request_vote env n r).0 m
    → (handle_request_vote env m s).1.vote_granted ≡ true
    → s.term ≡ r.term
    → s.candidate_id ≡ r.candidate_id
one_vote_per_term env n m r s g f reach h e =
    let a = granted_lem env n r g in
    let b = granted_lem env m s h in
    let k = ((handle_request_vote_iff env m s).0 h).1 in
    let grow = (Reach-Change env reach).0 in
    let same : m.current_term ≡ (handle_request_vote env n r).0.current_term = ground arith in
    let d = vote_stable env reach f (λ q. cc) same in ground arith

forgets :
    (env : Env) (n : RaftNode) (req : AppendEntriesRequest)
    → n.state ≡ candidate
    → req.term ≡ n.current_term
    → ((handle_append_entries env n req).0.voted_for ≡ none)
      × ((handle_append_entries env n req).0.current_term ≡ n.current_term)
unfolding handle_append_entries catch_up follow_leader check_prev
forgets env n req c e = ground arith

-- A candidate that takes a replication request of its own term has no vote on record afterwards,
-- and grants one in that term to any candidate whose log is up to date.
pub step_down_votes_again :
    (env : Env) (n : RaftNode) (req : AppendEntriesRequest) (r : RequestVoteRequest)
    → n.state ≡ candidate
    → req.term ≡ n.current_term
    → r.term ≡ n.current_term
    → UpToDate (handle_append_entries env n req).0.log r.last_log_index r.last_log_term
    → ((handle_append_entries env n req).0.voted_for ≡ none)
      × ((handle_request_vote env (handle_append_entries env n req).0 r).1.vote_granted ≡ true)
step_down_votes_again env n req r c e t u =
    let f = forgets env n req c e in
    (
      f.0,
      (handle_request_vote_iff env (handle_append_entries env n req).0 r).1
          (u, inr (omega (arith, f.1), inl f.0)),
    )
