-- ===== src/Raft/Node/Tick.antt =====
-- byoridb-storage/src/raft/node.rs: `tick`. `now` is the instant at which the timeout is tested.
pub mod Stalls
use byoridb.Base.{ℕ, Bool, List, Option, none, some, is_empty, leb, if◌then◌else◌}
use byoridb.Raft.Types.{LogEntry, RequestVoteRequest, AppendEntriesRequest}
use byoridb.Raft.Node.Defs.{Env, RaftNode, is_leader_state, become_candidate}
use byoridb.Raft.Node.Leader.{generate_append_entries, get_entries_to_apply}

pub data RaftAction : Type 0 where
  no_action : RaftAction
  send_request_vote : List (ℕ × RequestVoteRequest) → RaftAction
  send_append_entries : List (ℕ × AppendEntriesRequest) → RaftAction
  apply_entries : List LogEntry → RaftAction

unfoldable pub election_timeout_elapsed : RaftNode → ℕ → Bool
election_timeout_elapsed n now = leb n.election_deadline now

-- The end of `tick`: entries that are committed and not applied.
unfoldable pub apply_committed : RaftNode → RaftNode × RaftAction
apply_committed n =
    let (n', entries) = get_entries_to_apply n in
    (n', if is_empty entries then no_action else apply_entries entries)

-- `none` is the panic of `generate_append_entries`.
unfoldable pub tick : Env → RaftNode → ℕ → Option (RaftNode × RaftAction)
unfolding apply_committed election_timeout_elapsed
tick env n now =
    if is_leader_state n.state
    then elim (generate_append_entries n) [
      | none ↦ none
      | some requests ↦
          some (if is_empty requests then apply_committed n else (n, send_append_entries requests))
    ]
    else (if election_timeout_elapsed n now
        then (let (n', requests) = become_candidate env n in some (n', send_request_vote requests))
        else some (apply_committed n))
