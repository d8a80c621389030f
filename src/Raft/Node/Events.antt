-- ===== src/Raft/Node/Events.antt =====
-- byoridb-storage/src/raft: the calls that driver.rs, network.rs and mod.rs make on one node, as
-- events. `none` after an event is a panic, which stops the node.
pub mod Terms
pub mod Ballots
pub mod Elected
use byoridb.Base.{ℕ, ◌+◌, ◌<◌, ◌≡◌, u64_mod, Option, none, some}
use byoridb.Raft.Types.{
  Command, ConfigChange, RequestVoteRequest, RequestVoteResponse, AppendEntriesRequest,
  AppendEntriesResponse, InstallSnapshotRequest,
}
use byoridb.Raft.Node.Defs.{Env, RaftNode, become_candidate}
use byoridb.Raft.Node.Votes.{handle_request_vote, handle_request_vote_response}
use byoridb.Raft.Node.Append.{handle_append_entries}
use byoridb.Raft.Node.Leader.{handle_append_entries_response, propose, propose_config_change}
use byoridb.Raft.Node.Config.{handle_install_snapshot, apply_snapshot, apply_config_change}
use byoridb.Raft.Node.Tick.{tick, RaftAction}

pub data Event : Type 0 where
  vote_request : RequestVoteRequest → Event
  vote_reply : ℕ → RequestVoteResponse → Event
  entries_request : AppendEntriesRequest → Event
  entries_reply : ℕ → AppendEntriesResponse → Event
  snapshot_request : InstallSnapshotRequest → Event
  snapshot_applied : ℕ → ℕ → Event
  proposal : Command → Event
  config_proposal : ConfigChange → Event
  config_applied : ConfigChange → Event
  election : Event
  ticked : ℕ → Event

abbrev after_tick : Option (RaftNode × RaftAction) → Option RaftNode
after_tick none = none
after_tick (some (n, a)) = some n

unfoldable pub step : Env → RaftNode → Event → Option RaftNode
step env n (vote_request req) = some (handle_request_vote env n req).0
step env n (vote_reply from resp) = some (handle_request_vote_response env n from resp).0
step env n (entries_request req) = some (handle_append_entries env n req).0
step env n (entries_reply from resp) = handle_append_entries_response env n from resp
step env n (snapshot_request req) = some (handle_install_snapshot env n req).0
step env n (snapshot_applied index t) = some (apply_snapshot n index t)
step env n (proposal c) = some (propose n c).0
step env n (config_proposal c) = some (propose_config_change n c).0
step env n (config_applied c) = some (apply_config_change env n c)
step env n election = some (become_candidate env n).0
step env n (ticked now) = after_tick (tick env n now)

-- The nodes that `n` becomes by events. The term is below its last value, so that it cannot wrap.
pub data Reach (env : Env) (n : RaftNode) : RaftNode → Type 0 where
  here : Reach env n n
  next :
      {m k : RaftNode}
      → Reach env n m
      → (e : Event) → m.current_term + 1 < u64_mod
      → step env m e ≡ some k
      → Reach env n k
