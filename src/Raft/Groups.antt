-- ===== src/Raft/Groups.antt =====
-- byoridb-storage/src/raft/mod.rs: `RaftGroupManager`, one Raft node for each partition. The shared
-- `Arc<RwLock<RaftNode>>` of a group is its entry in the map: a method that locks a group and
-- changes its node returns the manager with that entry changed. The clock and the generator of
-- a group's node are `envs space_id part_id`. `NotLeader` keeps the node's error in place of its text.
pub mod Routing
mod Examples
use byoridb.Base.{
  ℕ, Bool, true, false, not, ◌&&◌, List, [], ◌∷◌, Option, none, some, map, length, ◌==◌,
  if◌then◌else◌,
}
use byoridb.Raft.Types.{
  Bytes, Command, ConfigChange, add_node_change, remove_node_change, ClusterConfig,
  RequestVoteRequest, RequestVoteResponse, AppendEntriesRequest, AppendEntriesResponse,
  InstallSnapshotRequest, InstallSnapshotResponse,
}
use byoridb.Raft.Node.Defs.{Env, RaftConfig, RaftNode, default_config}
use byoridb.Raft.Node.Defs as Node
use byoridb.Raft.Node.Votes as Votes
use byoridb.Raft.Node.Append as Append
use byoridb.Raft.Node.Leader as Leader
use byoridb.Raft.Node.Leader.{RaftNodeError, ProposeResult, ok, err}
use byoridb.Raft.Node.Config as Config
use byoridb.Raft.Node.Config.{InstallSnapshotAction}
use byoridb.Raft.Node.Tick.{
  RaftAction, no_action, send_request_vote, send_append_entries, apply_entries, tick,
}

pub record Group : Type 0 where
  pub space_id : ℕ
  pub part_id : ℕ
  pub node : RaftNode

pub record RaftGroupManager : Type 0 where
  pub node_id : ℕ
  pub groups : List Group
  pub default_cluster : ClusterConfig
  pub raft_config : RaftConfig

pub data RaftError : Type 0 where
  group_not_found : ℕ → ℕ → RaftError
  not_leader : RaftNodeError → RaftError
  log_compacted : RaftError
  storage : Bytes → RaftError

pub data GroupResult : Type 0 where
  done : ℕ → GroupResult
  failed : RaftError → GroupResult

abbrev pub same_key : Group → ℕ → ℕ → Bool
same_key g s p = g.space_id == s && g.part_id == p

unfoldable pub find : List Group → ℕ → ℕ → Option RaftNode
find [] s p = none
find (g ∷ gs) s p = if same_key g s p then some g.node else find gs s p

unfoldable pub put : List Group → ℕ → ℕ → RaftNode → List Group
put [] s p n = (record { space_id = s; part_id = p; node = n }) ∷ []
put (g ∷ gs) s p n = if same_key g s p then (record g { node = n }) ∷ gs else g ∷ put gs s p n

unfoldable pub take_out : List Group → ℕ → ℕ → List Group
take_out [] s p = []
take_out (g ∷ gs) s p = let rest = take_out gs s p in if same_key g s p then rest else g ∷ rest

unfoldable pub new : ℕ → ClusterConfig → RaftGroupManager
new node_id config = record {
  node_id = node_id;
  groups = [];
  default_cluster = config;
  raft_config = default_config;
}

unfoldable pub with_config : ℕ → ClusterConfig → RaftConfig → RaftGroupManager
with_config node_id config raft_config = record {
  node_id = node_id;
  groups = [];
  default_cluster = config;
  raft_config = raft_config;
}

unfoldable pub get_group : RaftGroupManager → ℕ → ℕ → Option RaftNode
get_group m s p = find m.groups s p

unfoldable pub remove_group : RaftGroupManager → ℕ → ℕ → RaftGroupManager × Option RaftNode
remove_group m s p = (record m { groups = take_out m.groups s p }, find m.groups s p)

unfoldable pub update_group : RaftGroupManager → ℕ → ℕ → RaftNode → RaftGroupManager
update_group m s p n = record m { groups = put m.groups s p n }

finish : RaftGroupManager → ℕ → ℕ → RaftNode × ProposeResult → RaftGroupManager × GroupResult
finish m s p (n, ok index) = (update_group m s p n, done index)
finish m s p (n, err e) = (update_group m s p n, failed (not_leader e))

unfoldable pub propose : RaftGroupManager → ℕ → ℕ → Command → RaftGroupManager × GroupResult
unfolding finish
propose m s p command = elim (get_group m s p) [
  | none ↦ (m, failed (group_not_found s p))
  | some n ↦ finish m s p (Leader.propose n command)
]

unfoldable pub propose_change :
    RaftGroupManager → ℕ → ℕ → ConfigChange → RaftGroupManager × GroupResult
unfolding finish
propose_change m s p change = elim (get_group m s p) [
  | none ↦ (m, failed (group_not_found s p))
  | some n ↦ finish m s p (Leader.propose_config_change n change)
]

unfoldable pub propose_add_node :
    RaftGroupManager → ℕ → ℕ → ℕ → Bytes → RaftGroupManager × GroupResult
propose_add_node m s p node_id addr = propose_change m s p (add_node_change node_id addr)

unfoldable pub propose_remove_node : RaftGroupManager → ℕ → ℕ → ℕ → RaftGroupManager × GroupResult
propose_remove_node m s p node_id = propose_change m s p (remove_node_change node_id)

unfoldable pub is_leader : RaftGroupManager → ℕ → ℕ → Bool
is_leader m s p = elim (get_group m s p) [ none ↦ false | some n ↦ Node.is_leader n ]

unfoldable pub get_leader : RaftGroupManager → ℕ → ℕ → Option ℕ
get_leader m s p = elim (get_group m s p) [ none ↦ none | some n ↦ n.leader_id ]

unfoldable pub group_count : RaftGroupManager → ℕ
group_count m = length m.groups

unfoldable pub get_all_partitions : RaftGroupManager → List (ℕ × ℕ)
get_all_partitions m = map (λ g. (g.space_id, g.part_id)) m.groups

abbrev acting : ℕ → ℕ → RaftAction → List ((ℕ × ℕ) × RaftAction) → List ((ℕ × ℕ) × RaftAction)
acting s p no_action rest = rest
acting s p (send_request_vote rs) rest = ((s, p), send_request_vote rs) ∷ rest
acting s p (send_append_entries rs) rest = ((s, p), send_append_entries rs) ∷ rest
acting s p (apply_entries es) rest = ((s, p), apply_entries es) ∷ rest

module _ (envs : ℕ → ℕ → Env) where
  unfoldable pub fresh : RaftGroupManager → ℕ → ℕ → RaftNode
  fresh m s p = Node.new (envs s p) m.node_id s p m.default_cluster m.raft_config

  -- Both lookups see the same map, since the write lock is held from the second on.
  unfoldable pub get_or_create_group : RaftGroupManager → ℕ → ℕ → RaftGroupManager × RaftNode
  get_or_create_group m s p = elim (get_group m s p) [
    | some n ↦ (m, n)
    | none ↦ (update_group m s p (fresh m s p), fresh m s p)
  ]

  unfoldable pub handle_request_vote :
      RaftGroupManager → ℕ → ℕ → RequestVoteRequest → RaftGroupManager × RequestVoteResponse
  handle_request_vote m s p request =
      let (m', n) = get_or_create_group m s p in
      let (n', response) = Votes.handle_request_vote (envs s p) n request in
      (update_group m' s p n', response)

  unfoldable pub handle_append_entries :
      RaftGroupManager → ℕ → ℕ → AppendEntriesRequest → RaftGroupManager × AppendEntriesResponse
  handle_append_entries m s p request =
      let (m', n) = get_or_create_group m s p in
      let (n', response) = Append.handle_append_entries (envs s p) n request in
      (update_group m' s p n', response)

  unfoldable pub handle_install_snapshot :
      RaftGroupManager
      → ℕ
      → ℕ
      → InstallSnapshotRequest
      → RaftGroupManager × InstallSnapshotResponse × Option InstallSnapshotAction
  handle_install_snapshot m s p request =
      let (m', n) = get_or_create_group m s p in
      let (n', response, action) = Config.handle_install_snapshot (envs s p) n request in
      (update_group m' s p n', response, action)

  -- `none` is the panic of a node's tick. `now s p` is the instant read by the group's tick.
  unfoldable pub tick_groups :
      (ℕ → ℕ → ℕ) → List Group → Option (List Group × List ((ℕ × ℕ) × RaftAction))
  tick_groups now [] = some ([], [])
  tick_groups now (g ∷ gs) =
      let rest = tick_groups now gs in
      elim (tick (envs g.space_id g.part_id) g.node (now g.space_id g.part_id)) [
        | none ↦ none
        | some (n, action) ↦ elim rest [
          | none ↦ none
          | some (gs', actions) ↦
              some ((record g { node = n }) ∷ gs', acting g.space_id g.part_id action actions)
        ]
      ]

  unfoldable pub tick_all :
      (ℕ → ℕ → ℕ) → RaftGroupManager → Option (RaftGroupManager × List ((ℕ × ℕ) × RaftAction))
  unfolding tick_groups
  tick_all now m = elim (tick_groups now m.groups) [
    | none ↦ none
    | some (gs, actions) ↦ some (record m { groups = gs }, actions)
  ]
