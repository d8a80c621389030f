-- ===== src/Raft/Node/Events/Elected.antt =====
-- byoridb-storage/src/raft/node.rs, `handle_request_vote_response` and `become_leader`: when a
-- candidate becomes the leader, and with what state.
use byoridb.Base.{
  suc, ◌*◌, ◌<◌, refl, sym, ap, ◌∙◌, Bool, true, false, length, All, HashMap, ℕ, ◌≤◌, ◌≡◌, ◌≢◌, ◌↔◌,
  List, [], ◌∷◌, some, lookup, insert, values, contains, lookup-insert, ◌==◌, if◌then◌else◌, arith,
  add64,
}
use byoridb.Base.Distinct.{
  NoRepeat, AreDistinct, insert-AreDistinct, hit, keys_where, keys_where-NoRepeat, keys_where-All,
  length-NoRepeat,
}
use byoridb.Raft.Types.{candidate, leader, RequestVoteResponse, majority, noop}
use byoridb.Raft.Log.Defs.{last_index, append_entry}
use byoridb.Raft.Node.Defs.{Env, RaftNode, LeaderState, track, become_leader}
use byoridb.Raft.Node.Votes.{handle_request_vote_response, count_true}

-- Whether a node is on record as having granted its vote, once the reply of `from` is in.
abbrev pub has_granted : RaftNode → ℕ → RequestVoteResponse → ℕ → Bool
has_granted n from r v =
    if v == from then r.vote_granted else hit (λ b. b) (lookup v n.votes_received)

-- Different nodes that granted their votes, more than half as many as there are voters.
pub record MajorityOfVotes (n : RaftNode) (from : ℕ) (r : RequestVoteResponse) : Type 0 where
  pub ids : List ℕ
  pub different : NoRepeat ids
  pub granted : All (λ v. has_granted n from r v ≡ true) ids
  pub enough : length n.config.voters < 2 * length ids

length-granting : (m : HashMap Bool) → length (keys_where (λ b. b) m) ≡ count_true (values m)
unfolding values
length-granting [] = refl
length-granting ((i, true) ∷ m) = ap suc (length-granting m)
length-granting ((i, false) ∷ m) = length-granting m

has_granted-insert :
    (n : RaftNode) (from : ℕ) (r : RequestVoteResponse) (v : ℕ)
    → hit (λ b. b) (lookup v (insert from r.vote_granted n.votes_received)) ≡ has_granted n from r v
has_granted-insert n from r v = ground (arith, lookup-insert from v r.vote_granted n.votes_received)

All-same :
    (f g : ℕ → Bool) (ids : List ℕ)
    → ((v : ℕ) → f v ≡ g v)
    → All (λ v. f v ≡ true) ids
    → All (λ v. g v ≡ true) ids
All-same f g [] h a = tt
All-same f g (v ∷ ids) h a = (sym (h v) ∙ a.0, All-same f g ids h a.1)

-- The count of the votes reaches the majority exactly when there are such nodes.
majority-MajorityOfVotes :
    (n : RaftNode) (from : ℕ) (r : RequestVoteResponse)
    → AreDistinct n.votes_received
    → (majority n.config ≤ count_true (values (insert from r.vote_granted n.votes_received)))
      ↔ MajorityOfVotes n from r
unfolding majority
majority-MajorityOfVotes n from r d =
    let m = insert from r.vote_granted n.votes_received in
    let dm = insert-AreDistinct from r.vote_granted n.votes_received d in
    let recorded = has_granted-insert n from r in
    (
      λ h. record {
        ids = keys_where (λ b. b) m;
        different = keys_where-NoRepeat (λ b. b) m dm;
        granted = All-same _ _ (keys_where (λ b. b) m) recorded (keys_where-All (λ b. b) m dm);
        enough = omega (arith, h, length-granting m);
      },
      λ q.
          let listed =
            length-NoRepeat (λ b. b) q.ids m q.different
              (All-same _ _ q.ids (λ v. sym (recorded v)) q.granted) in
          omega (arith, listed, length-granting m, q.enough),
    )

lookup-track :
    (self next v : ℕ) (vs : List ℕ) (s : LeaderState)
    → v ≢ self
    → (lookup v (track self next vs s).next_index
        ≡ (if contains vs v then some next else lookup v s.next_index))
      × (lookup v (track self next vs s).match_index
          ≡ (if contains vs v then some 0 else lookup v s.match_index))
unfolding track
lookup-track self next v [] s d = ground arith
lookup-track self next v (u ∷ vs) s d =
    let s' : LeaderState = if u == self then s else record {
      next_index = insert u next s.next_index;
      match_index = insert u 0 s.match_index;
    } in
    ground (
      arith,
      lookup-track self next v vs s' d,
      lookup-insert u v next s.next_index,
      lookup-insert u v 0 s.match_index,
    )

counted :
    (env : Env) (n : RaftNode) (from : ℕ) (r : RequestVoteResponse)
    → ((handle_request_vote_response env n from r).1 ≡ true) ↔ (
        (n.state ≡ candidate)
        × (r.term ≤ n.current_term)
        × (majority n.config ≤ count_true (values (insert from r.vote_granted n.votes_received))))
unfolding handle_request_vote_response
counted env n from r = ground arith

-- A reply to a vote request reports that the node became the leader exactly when, in a record of
-- votes without a double id, the node is a candidate, the reply's term is not ahead, and there
-- are different nodes, more than half as many as the voters, that each granted its vote: the
-- sender by this reply, the others on record.
pub elected_iff :
    (env : Env) (n : RaftNode) (from : ℕ) (r : RequestVoteResponse)
    → AreDistinct n.votes_received
    → ((handle_request_vote_response env n from r).1 ≡ true)
      ↔ ((n.state ≡ candidate) × (r.term ≤ n.current_term) × MajorityOfVotes n from r)
elected_iff env n from r d =
    let votes = majority-MajorityOfVotes n from r d in
    let tests = counted env n from r in
    (
      λ e. let (state, in_term, enough) = tests.0 e in (state, in_term, votes.0 enough),
      λ (state, in_term, enough). tests.1 (state, in_term, votes.1 enough),
    )

-- A node that a vote reply makes the leader keeps its term, has appended one no-op of that term
-- to its log, and holds for every other voter the index of that no-op as the next to send and
-- zero as the index known to match.
pub elected_state :
    (env : Env) (n : RaftNode) (from : ℕ) (r : RequestVoteResponse)
    → (handle_request_vote_response env n from r).1 ≡ true
    → let m = (handle_request_vote_response env n from r).0 in
      (m.state ≡ leader)
      × (m.current_term ≡ n.current_term)
      × (m.log ≡ (append_entry n.log n.current_term noop).0)
      × ((s : LeaderState) × (m.leader_state ≡ some s)
          × ((v : ℕ)
              → contains n.config.voters v ≡ true
              → v ≢ n.id
              → (lookup v s.next_index ≡ some (add64 (last_index n.log) 1))
                × (lookup v s.match_index ≡ some 0)))
unfolding handle_request_vote_response become_leader
elected_state env n from r g =
    let s : LeaderState =
      track n.id (add64 (last_index n.log) 1) n.config.voters
        (record { next_index = []; match_index = [] }) in
    (
      ground arith,
      ground arith,
      ground arith,
      (
        s,
        ground arith,
        λ v c d. ground (
          arith,
          lookup-track n.id (add64 (last_index n.log) 1) v n.config.voters
              (record { next_index = []; match_index = [] }) d,
        ),
      ),
    )
