-- ===== src/Raft/Node/Stopped.antt =====
-- Runs of byoridb-storage/src/raft/node.rs that do not go on: the theorems at inputs that meet their
-- hypotheses.
use byoridb.Base.{
  ℕ, ◌+◌, ◌<◌, ◌≡◌, ◌≢◌, inl, inr, refl, List, [], ◌∷◌, none, some, lookup, arith, add64, sub64,
}
use byoridb.Raft.Types.{leader, RequestVoteRequest, AppendEntriesRequest}
use byoridb.Raft.Log.Defs.{last_index, get, term, entries_range}
use byoridb.Raft.Node.Defs.{RaftNode, become_candidate}
use byoridb.Raft.Node.Leader.{append_request, generate_append_entries, unwrap_or}
use byoridb.Raft.Node.Tick.{tick, RaftAction, send_append_entries, send_request_vote}
use byoridb.Raft.Node.Tick.Stalls.{
  HasPeer, leader_tick_only_sends, leader_tick_panics, lonely_tick_never_leads,
}
use byoridb.Raft.Node.Examples.{env, node}
use byoridb.Raft.Node.Leading.{leading, tables}

abbrev heartbeats : RaftAction
unfolding generate_append_entries append_request entries_range lookup last_index get term add64
    sub64
heartbeats = elim (generate_append_entries leading) [
  | none ↦ send_append_entries []
  | some rs ↦ send_append_entries rs
]

sends : tick env leading 0 ≡ some (leading, heartbeats)
unfolding tick generate_append_entries append_request entries_range lookup last_index get term add64
    sub64
sends = refl

leader_tick_only_sends_example :
    (leading ≡ leading)
    × ((rs : List (ℕ × AppendEntriesRequest)) × (heartbeats ≡ send_append_entries rs))
leader_tick_only_sends_example =
    leader_tick_only_sends env leading leading tables 0 heartbeats refl refl
      (inr (inl (λ e. omega arith))) sends

-- The log is compacted up to 200 and follower 3 still waits for entry 3.
abbrev compacted : RaftNode
compacted = record leading { log = record { entries = []; first_index = 201; snapshot_term = 2 } }

behind : unwrap_or (lookup 3 tables.next_index) 1 + 100 < compacted.log.first_index
unfolding lookup
behind = omega arith

leader_tick_panics_example : tick env compacted 0 ≡ none
leader_tick_panics_example =
    leader_tick_panics env compacted tables 3 0 refl refl refl (omega arith) (omega arith)
      (omega arith) behind

abbrev lonely : RaftNode
lonely = record node { config = record { nodes = []; voters = 1 ∷ [] } }

abbrev standing_alone : RaftNode
standing_alone = (become_candidate env lonely).0

stands : tick env lonely 600 ≡ some (standing_alone, send_request_vote [])
unfolding tick become_candidate
stands = refl

no_peer : ¬ HasPeer 1 (1 ∷ [])
no_peer (inl d) = d refl
no_peer (inr p) = p

lonely_tick_never_leads_example :
    (standing_alone.state ≢ leader)
    × ((rs : List (ℕ × RequestVoteRequest)) → send_request_vote [] ≡ send_request_vote rs → rs ≡ [])
lonely_tick_never_leads_example =
    lonely_tick_never_leads env lonely standing_alone 600 (send_request_vote []) no_peer (λ e. cc)
      stands
