-- ===== src/Raft/Node/Leading.antt =====
-- Runs of byoridb-storage/src/raft/node.rs on a leader of three voters: the theorems at inputs that
-- meet their hypotheses.
use byoridb.Base.{
  ◌+◌, ◌≤◌, ◌<◌, ◌≡◌, ◌⊎◌, refl, [], ◌∷◌, some, lookup, values, length, arith, add64, sub64,
  u64_mod,
}
use byoridb.Base.Distinct.{AreDistinct}
use byoridb.Raft.Types.{LogEntry, leader, AppendEntriesRequest, majority}
use byoridb.Raft.Log.Defs.{last_index, get, term, entries_range}
use byoridb.Raft.Log.Reads.{IsWf}
use byoridb.Raft.Node.Defs.{RaftNode, LeaderState}
use byoridb.Raft.Node.Append.Matching.{IsContiguous}
use byoridb.Raft.Node.Leader.{
  sort_unstable, majority_index, try_advance_commit_index, append_request, unwrap_or,
}
use byoridb.Raft.Node.Leader.Tables.{IsOfVoters}
use byoridb.Raft.Node.Leader.Quorum.{indices, IsReplicated, try_advance_commit_index_quorum}
use byoridb.Raft.Node.Leader.Requests.{append_request_contract}
use byoridb.Raft.Node.Examples.{entry, node}

-- A leader of term 2 whose followers 2 and 3 hold its log up to 3 and 2.
abbrev pub tables : LeaderState
tables = record { next_index = (2, 4) ∷ (3, 3) ∷ []; match_index = (2, 3) ∷ (3, 2) ∷ [] }

abbrev pub leading : RaftNode
leading = record node {
  state = leader;
  leader_state = some tables;
  leader_id = some 1;
  log = record {
    entries = entry 1 1 ∷ entry 2 2 ∷ entry 2 3 ∷ [];
    first_index = 1;
    snapshot_term = 0;
  };
}

abbrev advanced : RaftNode
advanced = record leading { commit_index = 3 }

advances : try_advance_commit_index leading ≡ some advanced
unfolding try_advance_commit_index majority majority_index sort_unstable values last_index get term
    add64 sub64
advances = refl

few_indices : length (indices leading tables) < u64_mod
unfolding values
few_indices = omega arith

tables-IsOfVoters : IsOfVoters leading tables
unfolding AreDistinct lookup
tables-IsOfVoters = record {
  member = refl;
  distinct = (refl, (refl, tt));
  others = λ v i e. ground (arith, e);
}

try_advance_commit_index_quorum_example :
    (advanced ≡ leading)
    ⊎ ((leading.commit_index < advanced.commit_index)
        × (advanced ≡ record leading { commit_index = advanced.commit_index })
        × ((e : LogEntry) × (get leading.log 3 ≡ some e) × (e.term ≡ 2))
        × IsReplicated leading tables 3)
try_advance_commit_index_quorum_example =
    try_advance_commit_index_quorum leading advanced tables refl tables-IsOfVoters (omega arith)
      (omega arith) few_indices advances

-- After a late reply of node 8, which is no voter, an index is committed that only the leader of
-- the three voters is known to have.
abbrev late_tables : LeaderState
late_tables = record tables { match_index = (2, 0) ∷ (3, 0) ∷ (8, 3) ∷ [] }

late_reply_commits :
    try_advance_commit_index (record leading { leader_state = some late_tables })
    ≡ some (record leading { leader_state = some late_tables; commit_index = 3 })
unfolding try_advance_commit_index majority majority_index sort_unstable values last_index get term
    add64 sub64
late_reply_commits = refl

leading-IsWf : IsWf leading.log
leading-IsWf = record { first_pos = omega arith; bounded = omega arith; indexed = omega arith }

abbrev to_3 : AppendEntriesRequest
to_3 = record {
  term = 2;
  leader_id = 1;
  prev_log_index = 2;
  prev_log_term = 2;
  entries = entry 2 3 ∷ [];
  leader_commit = 1;
}

sends_to_3 : append_request leading tables 3 ≡ some to_3
unfolding append_request entries_range lookup last_index get term add64 sub64
sends_to_3 = refl

next_in_log : leading.log.first_index ≤ unwrap_or (lookup 3 tables.next_index) 1
unfolding lookup
next_in_log = omega arith

next_small : unwrap_or (lookup 3 tables.next_index) 1 + 100 < u64_mod
unfolding lookup
next_small = omega arith

append_request_contract_example :
    IsContiguous to_3
    × (length to_3.entries ≤ 100)
    × (to_3.prev_log_index + 1 ≡ unwrap_or (lookup 3 tables.next_index) 1)
    × (to_3.prev_log_term ≡ unwrap_or (term leading.log 2) 0)
    × (to_3.term ≡ leading.current_term)
    × (to_3.leader_id ≡ leading.id)
    × (to_3.leader_commit ≡ leading.commit_index)
append_request_contract_example =
    append_request_contract leading tables 3 to_3 leading-IsWf next_in_log next_small sends_to_3
