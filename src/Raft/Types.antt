-- ===== src/Raft/Types.antt =====
-- byoridb-storage/src/raft/types.rs: nodes, commands, log entries, the cluster's configuration and
-- the messages. A `String` is the list of its bytes; `Vec<u8>` a list of numbers.
use byoridb.Base.{
  ℕ, ◌+◌, ◌/◌, Bool, not, List, [], ◌∷◌, ◌++◌, Option, HashMap, insert, remove, lookup, contains,
  retain, length, ◌==◌, if◌then◌else◌,
}

abbrev pub Bytes : Type 0
Bytes = List ℕ

pub data RaftState : Type 0 where
  follower candidate leader : RaftState

pub data ConfigChange : Type 0 where
  add_node_change : ℕ → Bytes → ConfigChange
  remove_node_change : ℕ → ConfigChange

pub data Command : Type 0 where
  noop : Command
  put : ℕ → ℕ → Bytes → Bytes → Command
  delete : ℕ → ℕ → Bytes → Command
  config_change : ConfigChange → Command

pub record LogEntry : Type 0 where
  pub term : ℕ
  pub index : ℕ
  pub command : Command

pub record NodeInfo : Type 0 where
  pub id : ℕ
  pub addr : Bytes
  pub port : ℕ

pub record ClusterConfig : Type 0 where
  pub nodes : HashMap NodeInfo
  pub voters : List ℕ

abbrev pub empty_config : ClusterConfig
empty_config = record { nodes = []; voters = [] }

unfoldable pub add_node : ClusterConfig → NodeInfo → ClusterConfig
add_node c info = record c {
  nodes = insert info.id info c.nodes;
  voters = if contains c.voters info.id then c.voters else c.voters ++ info.id ∷ [];
}

unfoldable pub remove_node : ClusterConfig → ℕ → ClusterConfig
remove_node c node_id = record c {
  nodes = remove node_id c.nodes;
  voters = retain (λ id. not (id == node_id)) c.voters;
}

pub get_node : ClusterConfig → ℕ → Option NodeInfo
get_node c node_id = lookup node_id c.nodes

unfoldable pub majority : ClusterConfig → ℕ
majority c = length c.voters / 2 + 1

pub record RequestVoteRequest : Type 0 where
  pub term : ℕ
  pub candidate_id : ℕ
  pub last_log_index : ℕ
  pub last_log_term : ℕ

pub record RequestVoteResponse : Type 0 where
  pub term : ℕ
  pub vote_granted : Bool

pub record AppendEntriesRequest : Type 0 where
  pub term : ℕ
  pub leader_id : ℕ
  pub prev_log_index : ℕ
  pub prev_log_term : ℕ
  pub entries : List LogEntry
  pub leader_commit : ℕ

pub record AppendEntriesResponse : Type 0 where
  pub term : ℕ
  pub success : Bool
  pub match_index : ℕ

pub record InstallSnapshotRequest : Type 0 where
  pub term : ℕ
  pub leader_id : ℕ
  pub last_included_index : ℕ
  pub last_included_term : ℕ
  pub offset : ℕ
  pub chunk : Bytes
  pub done : Bool

pub record InstallSnapshotResponse : Type 0 where
  pub term : ℕ
