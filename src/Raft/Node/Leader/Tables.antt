-- ===== src/Raft/Node/Leader/Tables.antt =====
-- byoridb-storage/src/raft/node.rs, `LeaderState`: whose indexes the leader's tables hold.
use byoridb.Base.{
  true, ℕ, ◌≡◌, ◌≢◌, ◌==◌, List, [], ◌∷◌, some, add64, inl, inr, Bool-cases, HashMap, lookup,
  insert, lookup-insert, contains, arith,
}
use byoridb.Base.Distinct.{AreDistinct, insert-AreDistinct}
use byoridb.Raft.Types.{AppendEntriesResponse, RequestVoteResponse}
use byoridb.Raft.Log.Defs.{last_index}
use byoridb.Raft.Node.Defs.{Env, RaftNode, LeaderState, track, become_leader}
use byoridb.Raft.Node.Votes.{handle_request_vote_response}
use byoridb.Raft.Node.Leader.{record_reply}

-- The table of the known indexes is of voters other than the node itself, which is a voter.
pub record IsOfVoters (n : RaftNode) (s : LeaderState) : Type 0 where
  pub member : contains n.config.voters n.id ≡ true
  pub distinct : AreDistinct s.match_index
  pub others :
      (v i : ℕ) → lookup v s.match_index ≡ some i → (v ≢ n.id) × (contains n.config.voters v ≡ true)

-- The success of another voter keeps the table one of other voters.
pub record_reply-IsOfVoters :
    (n : RaftNode) (s : LeaderState) (from : ℕ) (r : AppendEntriesResponse)
    → IsOfVoters n s
    → from ≢ n.id
    → contains n.config.voters from ≡ true
    → IsOfVoters n (record_reply s from r)
unfolding record_reply
record_reply-IsOfVoters n s from r t apart voter = elim (Bool-cases r.success) [
  | inl y ↦ rw y (record {
    member = t.member;
    distinct = insert-AreDistinct from r.match_index s.match_index t.distinct;
    others = λ v i e.
        ground
          (arith, t.others v i, lookup-insert from v r.match_index s.match_index, apart, voter);
  })
  | inr d ↦ rw d (record { member = t.member; distinct = t.distinct; others = t.others })
]

-- The table is of voters other than `self`, each once.
abbrev AreOthers : ℕ → List ℕ → HashMap ℕ → Type 0
AreOthers self voters m =
    AreDistinct m × ((v i : ℕ) → lookup v m ≡ some i → (v ≢ self) × (contains voters v ≡ true))

empty-AreOthers : (self : ℕ) (voters : List ℕ) → AreOthers self voters []
unfolding AreDistinct lookup
empty-AreOthers self voters = (tt, λ v i e. cc)

track-AreOthers :
    (self next : ℕ) (voters vs : List ℕ) (s : LeaderState)
    → ((v : ℕ) → contains vs v ≡ true → contains voters v ≡ true)
    → AreOthers self voters s.match_index
    → AreOthers self voters (track self next vs s).match_index
unfolding track AreDistinct
track-AreOthers self next voters [] s h a = a
track-AreOthers self next voters (u ∷ vs) s h a =
    let rest : (v : ℕ) → contains vs v ≡ true → contains voters v ≡ true =
      λ v c. h v (ground (arith, c)) in
    elim (Bool-cases (u == self)) [
      | inl y ↦ rw (y, track) (track-AreOthers self next voters vs s rest a)
      | inr n ↦
          let s' : LeaderState = record {
            next_index = insert u next s.next_index;
            match_index = insert u 0 s.match_index;
          } in
          let voter : contains voters u ≡ true = h u (ground arith) in
          rw (n, track)
            (track-AreOthers self next voters vs s' rest (
              insert-AreDistinct u 0 s.match_index a.0,
              λ v i e. ground (arith, a.1 v i, lookup-insert u v 0 s.match_index, voter, n),
            ))
    ]

-- The tables that an elected leader starts with are of other voters, when it is a voter.
pub elected-IsOfVoters :
    (env : Env) (n : RaftNode) (from : ℕ) (r : RequestVoteResponse)
    → contains n.config.voters n.id ≡ true
    → (handle_request_vote_response env n from r).1 ≡ true
    → let m = (handle_request_vote_response env n from r).0 in
      (s : LeaderState) × (m.leader_state ≡ some s) × IsOfVoters m s
unfolding handle_request_vote_response become_leader AreDistinct
elected-IsOfVoters env n from r member g =
    let s : LeaderState =
      track n.id (add64 (last_index n.log) 1) n.config.voters
        (record { next_index = []; match_index = [] }) in
    let a : AreOthers n.id n.config.voters s.match_index =
      track-AreOthers n.id (add64 (last_index n.log) 1) n.config.voters n.config.voters
        (record { next_index = []; match_index = [] }) (λ v c. c)
        (empty-AreOthers n.id n.config.voters) in
    (
      s,
      ground arith,
      record {
        member = ground (arith, member);
        distinct = a.0;
        others = λ v i e. ground (arith, a.1 v i e);
      },
    )
