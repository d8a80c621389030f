-- ===== src/Raft/Node/Leader/Requests.antt =====
-- byoridb-storage/src/raft/node.rs, `generate_append_entries`: what the leader's requests hold.
use mathlib.Core.Path.{subst}
use byoridb.Base.{
  drop_all, take_all, ℕ, ◌+◌, ◌-◌, ◌≤◌, ◌<◌, ◌≡◌, refl, sym, ◌∙◌, none, some, some_inj, length,
  length-take, take-nil, length-drop, take, drop, lookup, arith, u64_mod, add64_exact, sub64,
  sub64_exact,
}
use byoridb.Raft.Types.{LogEntry, AppendEntriesRequest}
use byoridb.Raft.Log.Defs.{RaftLog, last_index, term, entries_range}
use byoridb.Raft.Log.Reads.{IsIndexed, IsWf, Fits, last_index_lem, take_zero}
use byoridb.Raft.Log.Updates.{IsIndexed-take, IsIndexed-drop}
use byoridb.Raft.Node.Append.Matching.{IsContiguous}
use byoridb.Raft.Node.Defs.{RaftNode, LeaderState}
use byoridb.Raft.Node.Leader.{unwrap_or, append_request}

-- The range that a request reads: the entries from `start` on, `end - start` of them at most.
pub entries_range_lem :
    (l : RaftLog) (start end : ℕ)
    → IsWf l
    → l.first_index ≤ start
    → start ≤ end
    → entries_range l start end ≡ some (take (end - start) (drop (start - l.first_index) l.entries))
unfolding entries_range
entries_range_lem l start end w f h =
    let k = start - l.first_index in
    ground (
      arith,
      last_index_lem l (w.first_pos, w.bounded),
      add64_exact (last_index l) 1,
      sub64_exact start l.first_index,
      sub64_exact end l.first_index,
      drop_all k l.entries,
      take-nil {A = LogEntry} (end - start),
      take_zero (end - start) (drop k l.entries),
      take_all (end - start) (drop k l.entries),
      take_all (length l.entries - k) (drop k l.entries),
      length-drop k l.entries,
    )

-- A range that ends before the log begins is a slice out of range.
pub entries_range_panics :
    (l : RaftLog) (start end : ℕ)
    → Fits l
    → start < end
    → end < l.first_index
    → entries_range l start end ≡ none
unfolding entries_range sub64
entries_range_panics l start end w h b =
    ground (arith, last_index_lem l w, add64_exact (last_index l) 1)

-- The request of a leader whose log reaches back to the follower's next index.
abbrev request : RaftNode → ℕ → AppendEntriesRequest
request n next = record {
  term = n.current_term;
  leader_id = n.id;
  prev_log_index = next - 1;
  prev_log_term = unwrap_or (term n.log (next - 1)) 0;
  entries =
      take (next + n.raft_config.max_entries_per_request - next)
        (drop (next - n.log.first_index) n.log.entries);
  leader_commit = n.commit_index;
}

append_request_lem :
    (n : RaftNode) (s : LeaderState) (v : ℕ)
    → IsWf n.log
    → n.log.first_index ≤ unwrap_or (lookup v s.next_index) 1
    → unwrap_or (lookup v s.next_index) 1 + n.raft_config.max_entries_per_request < u64_mod
    → append_request n s v ≡ some (request n (unwrap_or (lookup v s.next_index) 1))
unfolding append_request
append_request_lem n s v w f b =
    let next = unwrap_or (lookup v s.next_index) 1 in
    let most = n.raft_config.max_entries_per_request in
    ground
      (arith, add64_exact next most b, entries_range_lem n.log next (next + most) w f (omega arith))

tail-IsIndexed :
    (l : RaftLog) (next m : ℕ)
    → IsWf l
    → l.first_index ≤ next
    → IsIndexed (next - 1 + 1) (take m (drop (next - l.first_index) l.entries))
tail-IsIndexed l next m w f =
    let tail = drop (next - l.first_index) l.entries in
    IsIndexed-take m (next - 1 + 1) tail (
      subst (λ i. IsIndexed i tail) (omega (arith, w.first_pos))
        (IsIndexed-drop (next - l.first_index) l.first_index l.entries w.indexed))

-- A request that a leader with a well-formed log makes for a follower whose next index is not
-- below the log's first index, and for which no index wraps, has contiguous entries behind the
-- index before the next one, at most as many as configured, and carries the leader's term, id and
-- commit index and its own term of the previous entry (0 where unknown).
pub append_request_contract :
    (n : RaftNode) (s : LeaderState) (v : ℕ) (r : AppendEntriesRequest)
    → IsWf n.log
    → n.log.first_index ≤ unwrap_or (lookup v s.next_index) 1
    → unwrap_or (lookup v s.next_index) 1 + n.raft_config.max_entries_per_request < u64_mod
    → append_request n s v ≡ some r
    → IsContiguous r
      × (length r.entries ≤ n.raft_config.max_entries_per_request)
      × (r.prev_log_index + 1 ≡ unwrap_or (lookup v s.next_index) 1)
      × (r.prev_log_term ≡ unwrap_or (term n.log r.prev_log_index) 0)
      × (r.term ≡ n.current_term)
      × (r.leader_id ≡ n.id)
      × (r.leader_commit ≡ n.commit_index)
append_request_contract n s v r w f b e =
    let next = unwrap_or (lookup v s.next_index) 1 in
    let most = n.raft_config.max_entries_per_request in
    let tail = drop (next - n.log.first_index) n.log.entries in
    let size = length-take (next + most - next) tail in
    let q : request n next ≡ r = some_inj (sym (append_request_lem n s v w f b) ∙ e) in
    rw (← q) (
      (tail-IsIndexed n.log next (next + most - next) w f, omega (arith, size, w.first_pos)),
      omega (arith, size),
      omega (arith, w.first_pos),
      refl,
      refl,
      refl,
      refl,
    )
