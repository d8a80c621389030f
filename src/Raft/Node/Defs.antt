-- ===== src/Raft/Node/Defs.antt =====
-- byoridb-storage/src/raft/node.rs: the node's state and its changes of role. The fields of
-- `PersistentState` and `VolatileState` stand in the node's record. An `Instant` is a number of
-- milliseconds. `draws` counts the election deadlines drawn so far: the clock and the generator of
-- the `rand` crate are a parameter, read at that count.
use byoridb.Base.{
  ℕ, ◌+◌, Bool, true, false, not, List, [], ◌∷◌, Option, none, some, HashMap, insert, ltb, ◌==◌,
  if◌then◌else◌, add64, map, retain,
}
use byoridb.Raft.Types.{
  RaftState, follower, candidate, leader, ClusterConfig, RequestVoteRequest, noop,
}
use byoridb.Raft.Log.Defs.{RaftLog, last_index, last_term, append_entry}
use byoridb.Raft.Log.Defs as Log

pub record Env : Type 0 where
  -- `Instant::now()` at the k-th draw.
  pub now : ℕ → ℕ
  -- `rng.gen_range(min..=max)` at the k-th draw.
  pub gen_range : ℕ → ℕ → ℕ → ℕ

pub record RaftConfig : Type 0 where
  pub election_timeout_min : ℕ
  pub election_timeout_max : ℕ
  pub heartbeat_interval : ℕ
  pub max_entries_per_request : ℕ
  pub snapshot_threshold : ℕ

abbrev pub default_config : RaftConfig
default_config = record {
  election_timeout_min = 150;
  election_timeout_max = 300;
  heartbeat_interval = 50;
  max_entries_per_request = 100;
  snapshot_threshold = 10000;
}

pub record LeaderState : Type 0 where
  pub next_index : HashMap ℕ
  pub match_index : HashMap ℕ

pub record RaftNode : Type 0 where
  pub id : ℕ
  pub space_id : ℕ
  pub part_id : ℕ
  pub state : RaftState
  pub current_term : ℕ
  pub voted_for : Option ℕ
  pub commit_index : ℕ
  pub last_applied : ℕ
  pub leader_state : Option LeaderState
  pub log : RaftLog
  pub config : ClusterConfig
  pub raft_config : RaftConfig
  pub leader_id : Option ℕ
  pub election_deadline : ℕ
  pub votes_received : HashMap Bool
  pub draws : ℕ

abbrev pub is_follower : RaftState → Bool
is_follower follower = true
is_follower _ = false

abbrev pub is_candidate : RaftState → Bool
is_candidate candidate = true
is_candidate _ = false

abbrev pub is_leader_state : RaftState → Bool
is_leader_state leader = true
is_leader_state _ = false

unfoldable pub is_leader : RaftNode → Bool
is_leader n = is_leader_state n.state

-- `next_index.insert(id, last + 1); match_index.insert(id, 0)` for each other voter.
unfoldable pub track : ℕ → ℕ → List ℕ → LeaderState → LeaderState
track self next [] s = s
track self next (v ∷ vs) s = track self next vs (
    if v == self
    then s
    else record { next_index = insert v next s.next_index; match_index = insert v 0 s.match_index })

module _ (env : Env) where
  unfoldable pub random_election_deadline : RaftConfig → ℕ → ℕ
  random_election_deadline c k =
      env.now k + env.gen_range k c.election_timeout_min c.election_timeout_max

  unfoldable pub new : ℕ → ℕ → ℕ → ClusterConfig → RaftConfig → RaftNode
  unfolding random_election_deadline Log.new
  new id space_id part_id config raft_config = record {
    id = id;
    space_id = space_id;
    part_id = part_id;
    state = follower;
    current_term = 0;
    voted_for = none;
    commit_index = 0;
    last_applied = 0;
    leader_state = none;
    log = Log.new;
    config = config;
    raft_config = raft_config;
    leader_id = none;
    election_deadline = random_election_deadline raft_config 0;
    votes_received = [];
    draws = 1;
  }

  unfoldable pub reset_election_timeout : RaftNode → RaftNode
  reset_election_timeout n = record n {
    election_deadline = random_election_deadline n.raft_config n.draws;
    draws = n.draws + 1;
  }

  unfoldable pub become_follower : RaftNode → ℕ → Option ℕ → RaftNode
  unfolding reset_election_timeout
  become_follower n term leader_id = reset_election_timeout (record n {
    state = follower;
    current_term = term;
    voted_for = none;
    leader_id = leader_id;
    leader_state = none;
  })

  -- `if req.term > self.persistent.current_term { self.become_follower(req.term, …) }`
  unfoldable pub catch_up : RaftNode → ℕ → Option ℕ → RaftNode
  unfolding become_follower
  catch_up n term leader_id =
      if ltb n.current_term term then become_follower n term leader_id else n

  unfoldable pub become_candidate : RaftNode → RaftNode × List (ℕ × RequestVoteRequest)
  unfolding reset_election_timeout
  become_candidate n =
      let term = add64 n.current_term 1 in
      let request : RequestVoteRequest = record {
        term = term;
        candidate_id = n.id;
        last_log_index = last_index n.log;
        last_log_term = last_term n.log;
      } in
      (
        reset_election_timeout (record n {
          current_term = term;
          state = candidate;
          voted_for = some n.id;
          leader_id = none;
          leader_state = none;
          votes_received = insert n.id true [];
        }),
        map (λ v. (v, request)) (retain (λ v. not (v == n.id)) n.config.voters),
      )

  unfoldable pub become_leader : RaftNode → RaftNode
  unfolding track
  become_leader n = record n {
    state = leader;
    leader_id = some n.id;
    leader_state = some (
        track n.id (add64 (last_index n.log) 1) n.config.voters
          (record { next_index = []; match_index = [] }));
    log = (append_entry n.log n.current_term noop).0;
  }
