-- ===== src/Raft/Node/Config.antt =====
-- byoridb-storage/src/raft/node.rs: snapshots and changes of the cluster's configuration.
use byoridb.Base.{
  ℕ, ◌+◌, ◌-◌, ◌*◌, ◌^◌, Bool, false, not, ◌&&◌, [], ◌∷◌, ◌++◌, Option, none, some, insert, lookup,
  remove, is_empty, ltb, leb, ◌==◌, if◌then◌else◌, add64,
}
use byoridb.Raft.Types.{
  Bytes, ConfigChange, add_node_change, remove_node_change, InstallSnapshotRequest,
  InstallSnapshotResponse, add_node, remove_node,
}
use byoridb.Raft.Log.Defs.{last_index, compact}
use byoridb.Raft.Node.Defs.{
  Env, LeaderState, RaftNode, is_leader_state, reset_election_timeout, become_follower, catch_up,
}
use byoridb.Raft.Node.Leader.{unwrap_or}

pub record InstallSnapshotAction : Type 0 where
  pub last_included_index : ℕ
  pub last_included_term : ℕ
  pub offset : ℕ
  pub chunk : Bytes
  pub done : Bool

unfoldable pub apply_snapshot : RaftNode → ℕ → ℕ → RaftNode
apply_snapshot n last_included_index last_included_term = record n {
  log = compact n.log last_included_index last_included_term;
  commit_index =
      if ltb n.commit_index last_included_index then last_included_index else n.commit_index;
  last_applied =
      if ltb n.last_applied last_included_index then last_included_index else n.last_applied;
}

unfoldable pub should_send_snapshot : RaftNode → ℕ → Bool
should_send_snapshot n follower_id =
    if not (is_leader_state n.state) then false else (elim n.leader_state [
      | none ↦ false
      | some s ↦ ltb (unwrap_or (lookup follower_id s.next_index) 1) n.log.first_index
    ])

-- `addr.split(':').next_back()`
last_segment : Bytes → Bytes → Bytes
last_segment segment [] = segment
last_segment segment (c ∷ s) = last_segment (if c == b':' then [] else segment ++ c ∷ []) s

-- `str::parse::<u32>`: digits, with no overflow.
parse_digits : ℕ → Bytes → Option ℕ
parse_digits acc [] = some acc
parse_digits acc (c ∷ s) =
    let v = acc * 10 + (c - b'0') in
    let rest = parse_digits v s in if leb b'0' c && leb c b'9' && ltb v (2 ^ 32) then rest else none

parse_u32 : Bytes → Option ℕ
unfolding parse_digits
parse_u32 [] = none
parse_u32 (c ∷ s) =
    if c == b'+' then (if is_empty s then none else parse_digits 0 s) else parse_digits 0 (c ∷ s)

unfoldable pub extract_port : Bytes → ℕ
unfolding last_segment parse_u32
extract_port addr = unwrap_or (parse_u32 (last_segment [] addr)) 9779

abbrev map_leader : (LeaderState → LeaderState) → Option LeaderState → Option LeaderState
map_leader f none = none
map_leader f (some s) = some (f s)

module _ (env : Env) where
  unfoldable pub handle_install_snapshot :
      RaftNode
      → InstallSnapshotRequest
      → RaftNode × InstallSnapshotResponse × Option InstallSnapshotAction
  unfolding catch_up reset_election_timeout
  handle_install_snapshot n req =
      let n' : RaftNode =
        if ltb n.current_term req.term
        then become_follower env n req.term (some req.leader_id)
        else n in
      if ltb req.term n'.current_term then (n', record { term = n'.current_term }, none) else (
        record (reset_election_timeout env n') { leader_id = some req.leader_id },
        record { term = n'.current_term },
        some (record {
          last_included_index = req.last_included_index;
          last_included_term = req.last_included_term;
          offset = req.offset;
          chunk = req.chunk;
          done = req.done;
        }),
      )

  unfoldable pub apply_config_change : RaftNode → ConfigChange → RaftNode
  unfolding become_follower
  apply_config_change n (add_node_change node_id addr) = record n {
    config = add_node n.config (record { id = node_id; addr = addr; port = extract_port addr });
    leader_state =
        map_leader
          (λ s. record {
            next_index = insert node_id (add64 (last_index n.log) 1) s.next_index;
            match_index = insert node_id 0 s.match_index;
          })
          n.leader_state;
  }
  apply_config_change n (remove_node_change node_id) =
      let n' : RaftNode = record n {
        config = remove_node n.config node_id;
        leader_state =
            map_leader
              (λ s. record {
                next_index = remove node_id s.next_index;
                match_index = remove node_id s.match_index;
              })
              n.leader_state;
      } in
      if node_id == n.id && is_leader_state n.state
      then become_follower env n' n'.current_term none
      else n'
