-- ===== src/Raft/Groups/Examples.antt =====
-- byoridb-storage/src/raft/mod.rs: two partitions of one space.
use byoridb.Base.{ℕ, ◌+◌, ◌≡◌, ◌&&◌, [], ◌∷◌, none, if◌then◌else◌, ◌==◌}
use byoridb.Raft.Types.{AppendEntriesRequest}
use byoridb.Raft.Node.Defs.{Env, default_config}
use byoridb.Raft.Groups.{
  RaftGroupManager, with_config, get_or_create_group, get_group, remove_group,
}
use byoridb.Raft.Groups.Routing.{remove_group_lem}

abbrev envs : ℕ → ℕ → Env
envs s p = record { now = λ k. 1000 + p + k; gen_range = λ k lo hi. lo }

abbrev manager : RaftGroupManager
manager =
    (get_or_create_group envs
      (get_or_create_group envs
        (with_config 1 (record { nodes = []; voters = 1 ∷ 2 ∷ 3 ∷ [] }) default_config) 5 1).0
      5 2).0

abbrev heartbeat : AppendEntriesRequest
heartbeat = record {
  term = 4;
  leader_id = 2;
  prev_log_index = 0;
  prev_log_term = 0;
  entries = [];
  leader_commit = 0;
}

remove_group_example :
    get_group (remove_group manager 5 1).0 5 2
    ≡ (if 5 == 5 && 1 == 2 then none else get_group manager 5 2)
remove_group_example = (remove_group_lem manager 5 1 5 2).1
