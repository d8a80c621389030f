-- ===== src/Raft/Node/Tick/Stalls.antt =====
-- byoridb-storage/src/raft/node.rs, `tick`: where a node makes no progress.
use byoridb.Base.{
  ℕ, ◌+◌, ◌<◌, ◌≡◌, ◌≢◌, ◌⊎◌, inl, inr, refl, sym, ◌∙◌, true, false, not, List, [], ◌∷◌, none, some,
  Bool-cases, Option-cases, lookup, ◌==◌, if◌then◌else◌, arith, add64_exact, contains, is_empty,
  retain,
}
use byoridb.Raft.Types.{LogEntry, AppendEntriesRequest, RequestVoteRequest, leader}
use byoridb.Raft.Log.Reads.{Fits}
use byoridb.Raft.Node.Defs.{Env, RaftNode, LeaderState, become_candidate}
use byoridb.Raft.Node.Leader.{
  unwrap_or, append_request, append_requests, generate_append_entries, get_entries_to_apply,
}
use byoridb.Raft.Node.Leader.Requests.{entries_range_panics}
use byoridb.Raft.Node.Tick.{
  tick, RaftAction, send_append_entries, send_request_vote, apply_entries, no_action,
}

-- Some voter is not the node itself.
abbrev pub HasPeer : ℕ → List ℕ → Type 0
HasPeer id [] = ⊥
HasPeer id (v ∷ vs) = (v ≢ id) ⊎ HasPeer id vs

peer_requests :
    (n : RaftNode) (s : LeaderState) (vs : List ℕ) (rs : List (ℕ × AppendEntriesRequest))
    → HasPeer n.id vs
    → append_requests n s vs ≡ some rs
    → is_empty rs ≡ false
unfolding append_requests
peer_requests n s [] rs p e = absurd p
peer_requests n s (v ∷ vs) rs (inl q) e = ground arith
peer_requests n s (v ∷ vs) rs (inr q) e = ground (arith, peer_requests n s vs rs q)

-- A tick that returns on a leader with another voter and the leader's tables changes nothing and
-- asks only for replication requests to be sent.
pub leader_tick_only_sends :
    (env : Env) (n m : RaftNode) (s : LeaderState) (now : ℕ) (a : RaftAction)
    → n.state ≡ leader
    → n.leader_state ≡ some s
    → HasPeer n.id n.config.voters
    → tick env n now ≡ some (m, a)
    → (m ≡ n) × ((rs : List (ℕ × AppendEntriesRequest)) × (a ≡ send_append_entries rs))
unfolding tick generate_append_entries
leader_tick_only_sends env n m s now a l t p e =
    elim (Option-cases (append_requests n s n.config.voters)) [
      | inl panic ↦ ground arith
      | inr (rs, q) ↦ (
        ground (arith, peer_requests n s n.config.voters rs p),
        (rs, ground (arith, peer_requests n s n.config.voters rs p)),
      )
    ]

panics_at :
    (n : RaftNode) (s : LeaderState) (v : ℕ) (vs : List ℕ)
    → contains vs v ≡ true
    → v ≢ n.id
    → append_request n s v ≡ none
    → append_requests n s vs ≡ none
unfolding append_requests
panics_at n s v [] c d e = cc
panics_at n s v (u ∷ vs) c d e = elim (Bool-cases (u == v)) [
  | inl here ↦ let q : u ≡ v = ground arith in rw (q) (ground arith)
  | inr there ↦ ground (arith, panics_at n s v vs)
]

-- A tick panics on a leader with the leader's tables and a log whose indexes fit, when it may
-- send entries and the whole range that another voter needs next ends below the log's first
-- index.
pub leader_tick_panics :
    (env : Env) (n : RaftNode) (s : LeaderState) (v now : ℕ)
    → n.state ≡ leader
    → n.leader_state ≡ some s
    → contains n.config.voters v ≡ true
    → v ≢ n.id
    → Fits n.log
    → 0 < n.raft_config.max_entries_per_request
    → unwrap_or (lookup v s.next_index) 1 + n.raft_config.max_entries_per_request
      < n.log.first_index
    → tick env n now ≡ none
unfolding tick generate_append_entries append_request
leader_tick_panics env n s v now l t c d w pos b =
    let next = unwrap_or (lookup v s.next_index) 1 in
    let most = n.raft_config.max_entries_per_request in
    let e : append_request n s v ≡ none =
      ground (arith, add64_exact next most, entries_range_panics n.log next (next + most)) in
    ground (arith, panics_at n s v n.config.voters)

retain_none : (id : ℕ) (vs : List ℕ) → ¬ HasPeer id vs → retain (λ v. not (v == id)) vs ≡ []
retain_none id [] p = refl
retain_none id (v ∷ vs) p =
    ground (arith, retain_none id vs (λ q. p (inr q)), λ (d : v ≢ id). p (inl d))

no_peers :
    (env : Env) (n : RaftNode) → ¬ HasPeer n.id n.config.voters → (become_candidate env n).1 ≡ []
unfolding become_candidate
no_peers env n p = rw (retain_none n.id n.config.voters p)

applying_state : (n : RaftNode) → (get_entries_to_apply n).0.state ≡ n.state
unfolding get_entries_to_apply
applying_state n = ground arith

candidacy : (env : Env) (n : RaftNode) → (become_candidate env n).0.state ≢ leader
unfolding become_candidate
candidacy env n = ground arith

not-asking :
    (es : List LogEntry) (rs : List (ℕ × RequestVoteRequest))
    → (if is_empty es then no_action else apply_entries es) ≢ send_request_vote rs
not-asking [] rs = λ e. cc
not-asking (x ∷ es) rs = λ e. cc

-- A tick of a node that does not lead: an election, or the entries to apply.
waiting_tick :
    (env : Env) (n m : RaftNode) (now : ℕ) (a : RaftAction)
    → n.state ≢ leader
    → tick env n now ≡ some (m, a)
    → ((m ≡ (become_candidate env n).0) × (a ≡ send_request_vote (become_candidate env n).1))
      ⊎ ((m.state ≡ n.state)
          × (a ≡ (
              if is_empty (get_entries_to_apply n).1
              then no_action
              else apply_entries (get_entries_to_apply n).1)))
unfolding tick
waiting_tick env n m now a l e = ground (arith, applying_state n)

-- A tick that returns on a node that is not a leader and has no other voter does not make it a
-- leader, and asks nobody for a vote.
pub lonely_tick_never_leads :
    (env : Env) (n m : RaftNode) (now : ℕ) (a : RaftAction)
    → ¬ HasPeer n.id n.config.voters
    → n.state ≢ leader
    → tick env n now ≡ some (m, a)
    → (m.state ≢ leader)
      × ((rs : List (ℕ × RequestVoteRequest)) → a ≡ send_request_vote rs → rs ≡ [])
lonely_tick_never_leads env n m now a p l e = elim (waiting_tick env n m now a l e) [
  | inl (q, b) ↦ (rw q (candidacy env n), λ rs c. ground (arith, no_peers env n p))
  | inr (q, b) ↦ (rw q l, λ rs c. absurd (not-asking (get_entries_to_apply n).1 rs (sym b ∙ c)))
]
