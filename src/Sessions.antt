-- ===== src/Sessions.antt =====
-- byoridb-graph/src/session.rs: the sessions of the graph service and their expiry. The map is a
-- `HashMap` by the id (an `i64` as its 64-bit pattern). Each `SystemTime::now()` of a method is an
-- argument, in the order in which the method reads the clock; the random id is the draw that
-- it is made from. Every method runs as one step. Instants are not bounded.
pub mod Sweeps
pub mod Expiry
mod Examples
use byoridb.Base.{
  ℕ, ◌+◌, ◌/◌, Bool, true, false, ◌&&◌, List, [], ◌∷◌, Option, none, some, map, length, leb, ◌==◌,
  if◌then◌else◌, HashMap, lookup, insert, remove,
}
use byoridb.Raft.Types.{Bytes}

pub record Session : Type 0 where
  pub id : ℕ
  pub username : Bytes
  pub space : Option Bytes
  pub created_at : ℕ
  pub expires_at : ℕ
  pub last_accessed : ℕ

pub record SessionManager : Type 0 where
  pub sessions : HashMap Session
  pub ttl : ℕ

pub data SetSpaceResult : Type 0 where
  space_set : SetSpaceResult
  session_expired : SetSpaceResult
  session_not_found : SetSpaceResult

abbrev pub is_expired : Session → ℕ → Bool
is_expired s now = leb s.expires_at now

unfoldable pub with_ttl : ℕ → SessionManager
with_ttl ttl = record { sessions = []; ttl = ttl }

unfoldable pub store : SessionManager → ℕ → Session → SessionManager
store m i s = record m { sessions = insert i s m.sessions }

unfoldable pub discard : SessionManager → ℕ → SessionManager
discard m i = record m { sessions = remove i m.sessions }

unfoldable pub create_session_with_id : SessionManager → ℕ → ℕ → Bytes → SessionManager
create_session_with_id m now id username = store m id (record {
  id = id;
  username = username;
  space = none;
  created_at = now;
  expires_at = now + m.ttl;
  last_accessed = now;
})

-- `next_u64() >> 1`.
unfoldable pub random_session_id : ℕ → ℕ
random_session_id draw = draw / 2

unfoldable pub create_session : SessionManager → ℕ → ℕ → Bytes → SessionManager × ℕ
create_session m draw now username =
    let id = random_session_id draw in (create_session_with_id m now id username, id)

unfoldable pub remove_session : SessionManager → ℕ → SessionManager × Bool
remove_session m i = (discard m i, elim (lookup i m.sessions) [ none ↦ false | some s ↦ true ])

unfoldable pub has_session : SessionManager → ℕ → ℕ → SessionManager × Bool
has_session m now i = elim (lookup i m.sessions) [
  | none ↦ (m, false)
  | some s ↦ if is_expired s now then (discard m i, false) else (m, true)
]

-- The session after an access at `now`.
abbrev pub touch : ℕ → ℕ → Session → Session
touch ttl now s = record s { last_accessed = now; expires_at = now + ttl }

unfoldable pub get_session : SessionManager → ℕ → ℕ → ℕ → SessionManager × Option Session
get_session m now now' i = elim (lookup i m.sessions) [
  | none ↦ (m, none)
  | some s ↦
      if is_expired s now
      then (discard m i, none)
      else (store m i (touch m.ttl now' s), some (touch m.ttl now' s))
]

unfoldable pub set_space : SessionManager → ℕ → ℕ → ℕ → Bytes → SessionManager × SetSpaceResult
set_space m now now' i space = elim (lookup i m.sessions) [
  | none ↦ (m, session_not_found)
  | some s ↦
      if is_expired s now
      then (discard m i, session_expired)
      else (store m i (record s { space = some space; last_accessed = now' }), space_set)
]

unfoldable pub session_count : SessionManager → ℕ
session_count m = length m.sessions

unfoldable pub list_sessions : SessionManager → List (ℕ × Bytes × Option Bytes)
list_sessions m = map (λ e. (e.0, e.1.username, e.1.space)) m.sessions

unfoldable pub ids_where : (Session → Bool) → HashMap Session → List ℕ
ids_where test [] = []
ids_where test ((i, s) ∷ m) = let rest = ids_where test m in if test s then i ∷ rest else rest

unfoldable pub remove_ids : List ℕ → HashMap Session → HashMap Session
remove_ids [] m = m
remove_ids (i ∷ is) m = remove_ids is (remove i m)

unfoldable pub same_text : Bytes → Bytes → Bool
same_text [] [] = true
same_text [] (c ∷ cs) = false
same_text (b ∷ bs) [] = false
same_text (b ∷ bs) (c ∷ cs) = b == c && same_text bs cs

unfoldable pub remove_user_sessions : SessionManager → Bytes → SessionManager × ℕ
remove_user_sessions m username =
    let ids = ids_where (λ s. same_text s.username username) m.sessions in
    (record m { sessions = remove_ids ids m.sessions }, length ids)

unfoldable pub cleanup_expired : SessionManager → ℕ → SessionManager × ℕ
cleanup_expired m now =
    let ids = ids_where (λ s. is_expired s now) m.sessions in
    (record m { sessions = remove_ids ids m.sessions }, length ids)
