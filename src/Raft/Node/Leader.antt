-- ===== src/Raft/Node/Leader.antt =====
-- byoridb-storage/src/raft/node.rs: the leader's side, from replies to the commit index, and the
-- requests it sends. `none` is a panic (an index or slice out of range).
pub mod Tables
pub mod Counts
pub mod Quorum
pub mod Requests
use byoridb.Base.{
  ℕ, zero, suc, ◌+◌, ◌-◌, true, false, not, List, [], ◌∷◌, ◌++◌, Option, none, some, insert, lookup,
  values, length, get_elem?, ltb, leb, ◌==◌, if◌then◌else◌, add64, sub64,
}
use byoridb.Raft.Types.{
  Command, ConfigChange, config_change, LogEntry, AppendEntriesRequest, AppendEntriesResponse,
  majority,
}
use byoridb.Raft.Log.Defs.{RaftLog, last_index, term, append_entry, entries_range}
use byoridb.Raft.Node.Defs.{Env, LeaderState, RaftNode, is_leader_state, become_follower}

pub data RaftNodeError : Type 0 where
  not_leader : Option ℕ → RaftNodeError
  proposal_failed : List ℕ → RaftNodeError

pub data ProposeResult : Type 0 where
  ok : ℕ → ProposeResult
  err : RaftNodeError → ProposeResult

abbrev pub unwrap_or : Option ℕ → ℕ → ℕ
unwrap_or none d = d
unwrap_or (some v) d = v

insert_sorted : ℕ → List ℕ → List ℕ
insert_sorted x [] = x ∷ []
insert_sorted x (y ∷ ys) = if leb x y then x ∷ y ∷ ys else y ∷ insert_sorted x ys

-- `sort_unstable` on numbers.
unfoldable pub sort_unstable : List ℕ → List ℕ
unfolding insert_sorted
sort_unstable [] = []
sort_unstable (x ∷ xs) = insert_sorted x (sort_unstable xs)

-- `match_indices[match_indices.len() - majority]` of the sorted indices.
unfoldable pub majority_index : List ℕ → ℕ → Option ℕ
majority_index match_indices m =
    get_elem? (sort_unstable match_indices) (sub64 (length (sort_unstable match_indices)) m)

-- `if majority_index > commit_index { if let Some(term) = self.log.term(majority_index) { … } }`
unfoldable pub commit_at : RaftNode → ℕ → RaftNode
commit_at n index =
    if ltb n.commit_index index
    then elim (term n.log index) [
      | none ↦ n
      | some t ↦ if t == n.current_term then record n { commit_index = index } else n
    ]
    else n

unfoldable pub try_advance_commit_index : RaftNode → Option RaftNode
unfolding commit_at
try_advance_commit_index n = elim n.leader_state [
  | none ↦ some n
  | some s ↦
      elim (majority_index (values s.match_index ++ last_index n.log ∷ []) (majority n.config)) [
        | none ↦ none
        | some index ↦ some (commit_at n index)
      ]
]

-- The update of the leader's tables by one reply.
unfoldable pub record_reply : LeaderState → ℕ → AppendEntriesResponse → LeaderState
record_reply s from resp =
    if resp.success
    then record {
      next_index = insert from (add64 resp.match_index 1) s.next_index;
      match_index = insert from resp.match_index s.match_index;
    }
    else (let next = unwrap_or (lookup from s.next_index) 1 - 1 in
        record {
          next_index = insert from (if leb 1 next then next else 1) s.next_index;
          match_index = s.match_index;
        })

module _ (env : Env) where
  unfoldable pub handle_append_entries_response :
      RaftNode → ℕ → AppendEntriesResponse → Option RaftNode
  unfolding become_follower record_reply
  handle_append_entries_response n from resp =
      if not (is_leader_state n.state)
      then some n
      else if ltb n.current_term resp.term
      then some (become_follower env n resp.term none)
      else (elim n.leader_state [
        | none ↦ some n
        | some s ↦
            let n' : RaftNode = record n { leader_state = some (record_reply s from resp) } in
            if resp.success then try_advance_commit_index n' else some n'
      ])

unfoldable pub propose : RaftNode → Command → RaftNode × ProposeResult
propose n command =
    if not (is_leader_state n.state)
    then (n, err (not_leader n.leader_id))
    else (let (log, index) = append_entry n.log n.current_term command in
        (record n { log = log }, ok index))

unfoldable pub propose_config_change : RaftNode → ConfigChange → RaftNode × ProposeResult
propose_config_change n change =
    if not (is_leader_state n.state)
    then (n, err (not_leader n.leader_id))
    else (let (log, index) = append_entry n.log n.current_term (config_change change) in
        (record n { log = log }, ok index))

-- The request for one follower.
unfoldable pub append_request : RaftNode → LeaderState → ℕ → Option AppendEntriesRequest
append_request n s node_id =
    let next = unwrap_or (lookup node_id s.next_index) 1 in
    elim (entries_range n.log next (add64 next n.raft_config.max_entries_per_request)) [
      | none ↦ none
      | some entries ↦ some (record {
        term = n.current_term;
        leader_id = n.id;
        prev_log_index = next - 1;
        prev_log_term = unwrap_or (term n.log (next - 1)) 0;
        entries = entries;
        leader_commit = n.commit_index;
      })
    ]

unfoldable pub append_requests :
    RaftNode → LeaderState → List ℕ → Option (List (ℕ × AppendEntriesRequest))
unfolding append_request
append_requests n s [] = some []
append_requests n s (v ∷ vs) =
    let rest = append_requests n s vs in
    elim (v == n.id) [
      | true ↦ rest
      | false ↦ elim (append_request n s v) [
        | none ↦ none
        | some r ↦ elim rest [ none ↦ none | some rs ↦ some ((v, r) ∷ rs) ]
      ]
    ]

unfoldable pub generate_append_entries : RaftNode → Option (List (ℕ × AppendEntriesRequest))
unfolding append_requests
generate_append_entries n =
    if not (is_leader_state n.state)
    then some []
    else (elim n.leader_state [ none ↦ some [] | some s ↦ append_requests n s n.config.voters ])

-- The `while` of `get_entries_to_apply`, over the rounds left.
unfoldable pub apply_rounds : RaftLog → ℕ → ℕ → List LogEntry
apply_rounds l zero last_applied = []
apply_rounds l (suc rounds) last_applied =
    let rest = apply_rounds l rounds (last_applied + 1) in
    elim (byoridb.Raft.Log.Defs.get l (last_applied + 1)) [ none ↦ rest | some e ↦ e ∷ rest ]

unfoldable pub get_entries_to_apply : RaftNode → RaftNode × List LogEntry
unfolding apply_rounds
get_entries_to_apply n = (
  if ltb n.last_applied n.commit_index then record n { last_applied = n.commit_index } else n,
  apply_rounds n.log (n.commit_index - n.last_applied) n.last_applied,
)
