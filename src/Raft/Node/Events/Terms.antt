-- ===== src/Raft/Node/Events/Terms.antt =====
-- byoridb-storage/src/raft/node.rs: how the term, the role and the vote change over any events.
use byoridb.Base.{
  ℕ, ◌+◌, ◌≤◌, ◌<◌, ◌≡◌, ◌≢◌, inl, inr, Option, none, some, ltb, Bool-cases, Option-cases, some_inj,
  u64_mod, arith, add64_exact,
}
use mathlib.Core.Path.{subst}
use byoridb.Raft.Types.{
  noop, follower, leader, Command, ConfigChange, InstallSnapshotRequest, add_node_change,
  remove_node_change, RequestVoteRequest, RequestVoteResponse, AppendEntriesRequest,
  AppendEntriesResponse,
}
use byoridb.Raft.Node.Defs.{Env, RaftNode, become_candidate, become_leader, catch_up}
use byoridb.Raft.Node.Votes.{handle_request_vote, handle_request_vote_response}
use byoridb.Raft.Node.Append.{handle_append_entries, check_prev, follow_leader}
use byoridb.Raft.Node.Leader.{
  record_reply, handle_append_entries_response, propose, propose_config_change,
  try_advance_commit_index, get_entries_to_apply,
}
use byoridb.Raft.Node.Config.{handle_install_snapshot, apply_snapshot, apply_config_change}
use byoridb.Raft.Node.Tick.{tick}
use byoridb.Raft.Node.Events.{
  Event, vote_request, vote_reply, entries_request, entries_reply, snapshot_request,
  snapshot_applied, proposal, config_proposal, config_applied, election, ticked, after_tick, step,
  Reach, here, next,
}

-- A leader, and no other node, has the leader's tables.
abbrev pub HasRole : RaftNode → Type 0
HasRole n = (n.state ≡ leader → n.leader_state ≢ none) × (n.state ≢ leader → n.leader_state ≡ none)

-- One event: the term does not fall, the role fits, and a follower keeps its vote in its term.
abbrev pub Change : RaftNode → RaftNode → Type 0
Change n m =
    (n.current_term ≤ m.current_term)
    × (HasRole n → HasRole m)
    × (n.state ≡ follower
        → n.voted_for ≢ none
        → m.current_term ≡ n.current_term
        → (m.state ≡ follower) × (m.voted_for ≡ n.voted_for))

vote_request-Change :
    (env : Env) (n : RaftNode) (r : RequestVoteRequest) → Change n (handle_request_vote env n r).0
unfolding handle_request_vote
vote_request-Change env n r = ground arith

vote_reply-Change :
    (env : Env) (n : RaftNode) (from : ℕ) (r : RequestVoteResponse)
    → Change n (handle_request_vote_response env n from r).0
unfolding handle_request_vote_response become_leader
vote_reply-Change env n from r = ground arith

catch_up-Change :
    (env : Env) (n : RaftNode) (t : ℕ) (l : Option ℕ)
    → Change n (catch_up env n t l) × (t ≤ (catch_up env n t l).current_term)
unfolding catch_up
catch_up-Change env n t l = ground arith

follow_leader-Change :
    (env : Env) (n : RaftNode) (r : AppendEntriesRequest)
    → n.current_term ≡ r.term
    → Change n (follow_leader env n r)
unfolding follow_leader
follow_leader-Change env n r e = ground arith

check_prev-Change : (n : RaftNode) (r : AppendEntriesRequest) → Change n (check_prev n r).0
unfolding check_prev
check_prev-Change n r = ground arith

Change-trans : (n m k : RaftNode) → Change n m → Change m k → Change n k
Change-trans n m k a b = ground arith

entries_request-Change :
    (env : Env) (n : RaftNode) (r : AppendEntriesRequest)
    → Change n (handle_append_entries env n r).0
unfolding handle_append_entries
entries_request-Change env n r =
    let n' : RaftNode = catch_up env n r.term (some r.leader_id) in
    let f : RaftNode = follow_leader env n' r in
    let c = catch_up-Change env n r.term (some r.leader_id) in
    elim (Bool-cases (ltb r.term n'.current_term)) [
      | inl stale ↦ rw stale c.0
      | inr current ↦ rw current (
          Change-trans n n' (check_prev f r).0 c.0 (
            Change-trans n' f (check_prev f r).0
              (follow_leader-Change env n' r (ground (arith, c.1))) (check_prev-Change f r)))
    ]

commit-Change : (n m : RaftNode) → try_advance_commit_index n ≡ some m → Change n m
unfolding try_advance_commit_index
commit-Change n m e = ground arith

entries_reply-Change :
    (env : Env) (n m : RaftNode) (from : ℕ) (r : AppendEntriesResponse)
    → handle_append_entries_response env n from r ≡ some m
    → Change n m
unfolding handle_append_entries_response
entries_reply-Change env n m from r e = elim (Option-cases n.leader_state) [
  | inl missing ↦ ground arith
  | inr (s, found) ↦
      ground (arith, commit-Change (record n { leader_state = some (record_reply s from r) }) m)
]

snapshot-Change :
    (env : Env) (n : RaftNode) (r : InstallSnapshotRequest)
    → Change n (handle_install_snapshot env n r).0
unfolding handle_install_snapshot
snapshot-Change env n r = ground arith

config-Change :
    (env : Env) (n : RaftNode) (c : ConfigChange) → Change n (apply_config_change env n c)
unfolding apply_config_change
config-Change env n (add_node_change i a) = ground arith
config-Change env n (remove_node_change i) = ground arith

applied-Change : (n : RaftNode) (i t : ℕ) → Change n (apply_snapshot n i t)
unfolding apply_snapshot
applied-Change n i t = ground arith

propose-Change :
    (n : RaftNode) (c : Command) (d : ConfigChange)
    → Change n (propose n c).0 × Change n (propose_config_change n d).0
unfolding propose propose_config_change
propose-Change n c d = ground arith

election-Change :
    (env : Env) (n : RaftNode) → n.current_term + 1 < u64_mod → Change n (become_candidate env n).0
unfolding become_candidate
election-Change env n h = ground (arith, add64_exact n.current_term 1)

tick-Change :
    (env : Env) (n m : RaftNode) (now : ℕ)
    → n.current_term + 1 < u64_mod
    → after_tick (tick env n now) ≡ some m
    → Change n m
unfolding tick get_entries_to_apply
tick-Change env n m now h e = ground (arith, election-Change env n h)

carried : (n k m : RaftNode) → Change n k → some k ≡ some m → Change n m
carried n k m c e = subst (Change n) (some_inj e) c

-- Every event.
pub step-Change :
    (env : Env) (n m : RaftNode) (e : Event)
    → n.current_term + 1 < u64_mod
    → step env n e ≡ some m
    → Change n m
unfolding step
step-Change env n m (vote_request r) h e =
    carried n (handle_request_vote env n r).0 m (vote_request-Change env n r) e
step-Change env n m (vote_reply from r) h e =
    carried n (handle_request_vote_response env n from r).0 m (vote_reply-Change env n from r) e
step-Change env n m (entries_request r) h e =
    carried n (handle_append_entries env n r).0 m (entries_request-Change env n r) e
step-Change env n m (entries_reply from r) h e = entries_reply-Change env n m from r e
step-Change env n m (snapshot_request r) h e =
    carried n (handle_install_snapshot env n r).0 m (snapshot-Change env n r) e
step-Change env n m (snapshot_applied i t) h e =
    carried n (apply_snapshot n i t) m (applied-Change n i t) e
step-Change env n m (proposal c) h e =
    carried n (propose n c).0 m (propose-Change n c (remove_node_change 0)).0 e
step-Change env n m (config_proposal c) h e =
    carried n (propose_config_change n c).0 m (propose-Change n noop c).1 e
step-Change env n m (config_applied c) h e =
    carried n (apply_config_change env n c) m (config-Change env n c) e
step-Change env n m election h e =
    carried n (become_candidate env n).0 m (election-Change env n h) e
step-Change env n m (ticked now) h e = tick-Change env n m now h e

-- Over any events, each at a term below the last 64-bit value, the term does not fall, and a node
-- that has the leader's tables exactly when it is a leader keeps that property.
pub Reach-Change :
    (env : Env) {n m : RaftNode}
    → Reach env n m
    → (n.current_term ≤ m.current_term) × (HasRole n → HasRole m)
Reach-Change env here = (omega arith, λ h. h)
Reach-Change env (next {m = m} {k = k} r e h q) =
    let c = step-Change env m k e h q in
    let d = Reach-Change env r in (omega (arith, d.0, c.0), λ role. c.1 (d.1 role))
