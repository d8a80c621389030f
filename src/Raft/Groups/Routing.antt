-- ===== src/Raft/Groups/Routing.antt =====
-- byoridb-storage/src/raft/mod.rs: a message changes the node of its own partition and no other.
use byoridb.Base.{
  ℕ, ◌≡◌, ◌⊎◌, inl, inr, refl, ◌&&◌, List, [], ◌∷◌, none, some, ◌==◌, if◌then◌else◌, arith,
  Option-cases,
}
use byoridb.Raft.Types.{Command, AppendEntriesRequest}
use byoridb.Raft.Node.Defs.{Env, RaftNode}
use byoridb.Raft.Node.Append as Append
use byoridb.Raft.Node.Leader as Leader
use byoridb.Raft.Node.Leader.{ProposeResult, ok, err}
use byoridb.Raft.Groups.{
  Group, RaftGroupManager, find, put, take_out, update_group, finish, get_group,
  get_or_create_group, fresh, handle_append_entries, propose, remove_group, done, failed,
  group_not_found, not_leader, GroupResult,
}

pub find-put :
    (gs : List Group) (s p : ℕ) (n : RaftNode) (t q : ℕ)
    → find (put gs s p n) t q ≡ (if s == t && p == q then some n else find gs t q)
unfolding find put
find-put [] s p n t q = refl
find-put (g ∷ gs) s p n t q = ground (arith, find-put gs s p n t q)

find-take_out :
    (gs : List Group) (s p t q : ℕ)
    → find (take_out gs s p) t q ≡ (if s == t && p == q then none else find gs t q)
unfolding find take_out
find-take_out [] s p t q = ground arith
find-take_out (g ∷ gs) s p t q = ground (arith, find-take_out gs s p t q)

-- The node that a message meets: the partition's, or a new one.
abbrev pub met : (ℕ → ℕ → Env) → RaftGroupManager → ℕ → ℕ → RaftNode
met envs m s p = elim (get_group m s p) [ none ↦ fresh envs m s p | some n ↦ n ]

get_or_create_lem :
    (envs : ℕ → ℕ → Env) (m : RaftGroupManager) (s p : ℕ)
    → ((get_or_create_group envs m s p).1 ≡ met envs m s p)
      × ((t q : ℕ) (n : RaftNode)
          → get_group (update_group (get_or_create_group envs m s p).0 s p n) t q
            ≡ (if s == t && p == q then some n else get_group m t q))
unfolding get_or_create_group get_group update_group
get_or_create_lem envs m s p = (
  ground arith,
  λ t q n. ground (
    arith,
    find-put m.groups s p n t q,
    find-put m.groups s p (fresh envs m s p) t q,
    find-put (put m.groups s p (fresh envs m s p)) s p n t q,
  ),
)

-- A replication message is answered by the node of its partition, or by a new node where there is
-- none; afterwards that partition has the node's new state, and every other partition is as
-- before.
pub handle_append_entries_routed :
    (envs : ℕ → ℕ → Env) (m : RaftGroupManager) (s p : ℕ) (r : AppendEntriesRequest) (t q : ℕ)
    → ((handle_append_entries envs m s p r).1
        ≡ (Append.handle_append_entries (envs s p) (met envs m s p) r).1)
      × (get_group (handle_append_entries envs m s p r).0 t q ≡ (
          if s == t && p == q
          then some (Append.handle_append_entries (envs s p) (met envs m s p) r).0
          else get_group m t q))
unfolding handle_append_entries
handle_append_entries_routed envs m s p r t q =
    let c = get_or_create_lem envs m s p in rw (c.1 t q, c.0) (refl, refl)

abbrev pub passed_on : ProposeResult → GroupResult
passed_on (ok index) = done index
passed_on (err e) = failed (not_leader e)

-- A proposal for a partition without a group is refused and changes nothing; otherwise the
-- partition's node takes the command, its result is passed on, and every other partition is as
-- before.
pub propose_routed :
    (m : RaftGroupManager) (s p : ℕ) (c : Command) (t q : ℕ)
    → ((get_group m s p ≡ none) × (propose m s p c ≡ (m, failed (group_not_found s p))))
      ⊎ ((n : RaftNode) × (get_group m s p ≡ some n)
          × ((propose m s p c).1 ≡ passed_on (Leader.propose n c).1)
          × (get_group (propose m s p c).0 t q
              ≡ (if s == t && p == q then some (Leader.propose n c).0 else get_group m t q)))
unfolding propose finish get_group update_group
propose_routed m s p c t q = elim (Option-cases (find m.groups s p)) [
  | inl e ↦ inl (e, ground arith)
  | inr (n, e) ↦
      inr (n, e, ground arith, ground (arith, find-put m.groups s p (Leader.propose n c).0 t q))
]

-- A removed group is returned and gone, and every other is as before.
pub remove_group_lem :
    (m : RaftGroupManager) (s p t q : ℕ)
    → ((remove_group m s p).1 ≡ get_group m s p)
      × (get_group (remove_group m s p).0 t q
          ≡ (if s == t && p == q then none else get_group m t q))
unfolding remove_group get_group
remove_group_lem m s p t q = (refl, find-take_out m.groups s p t q)
