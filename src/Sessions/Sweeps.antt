-- ===== src/Sessions/Sweeps.antt =====
-- byoridb-graph/src/session.rs: the operations that remove every session of a kind.
use byoridb.Base.{
  ℕ, ◌+◌, ◌≡◌, ◌≢◌, ◌↔◌, inl, inr, refl, Bool, true, List, [], ◌∷◌, Option, none, some, arith,
  length, contains, if◌then◌else◌, Option-cases, HashMap, lookup, remove, lookup-remove,
}
use byoridb.Base.Distinct.{AreDistinct, insert-AreDistinct, remove-AreDistinct, hit}
use byoridb.Raft.Types.{Bytes}
use byoridb.Sessions.{
  Session, SessionManager, is_expired, touch, ids_where, remove_ids, remove_user_sessions,
  cleanup_expired, session_count, same_text, store, discard, get_session, set_space, has_session,
  create_session_with_id, create_session, remove_session,
}

remove-absent : (i : ℕ) (m : HashMap Session) → lookup i m ≡ none → remove i m ≡ m
unfolding lookup remove
remove-absent i [] e = refl
remove-absent i ((j, t) ∷ m) e = ground (arith, remove-absent i m)

-- What a sweep leaves of a lookup.
abbrev pub spared : (Session → Bool) → Option Session → Option Session
spared test none = none
spared test (some s) = if test s then none else some s

contains-ids_where :
    (test : Session → Bool) (m : HashMap Session)
    → AreDistinct m
    → (j : ℕ) → contains (ids_where test m) j ≡ hit test (lookup j m)
unfolding AreDistinct lookup ids_where
contains-ids_where test [] d j = refl
contains-ids_where test ((i, s) ∷ m) d j =
    ground (arith, contains-ids_where test m d.1 j, contains-ids_where test m d.1 i, d.0)

lookup-remove_ids :
    (is : List ℕ) (m : HashMap Session) (j : ℕ)
    → lookup j (remove_ids is m) ≡ (if contains is j then none else lookup j m)
unfolding remove_ids
lookup-remove_ids [] m j = refl
lookup-remove_ids (i ∷ is) m j =
    ground (arith, lookup-remove_ids is (remove i m) j, lookup-remove i j m)

remove_ids-AreDistinct :
    (is : List ℕ) (m : HashMap Session) → AreDistinct m → AreDistinct (remove_ids is m)
unfolding remove_ids
remove_ids-AreDistinct [] m d = d
remove_ids-AreDistinct (i ∷ is) m d =
    remove_ids-AreDistinct is (remove i m) (remove-AreDistinct i m d)

remove_ids-cons :
    (is : List ℕ) (i : ℕ) (s : Session) (m : HashMap Session)
    → remove_ids is ((i, s) ∷ m)
      ≡ (if contains is i then remove_ids is m else (i, s) ∷ remove_ids is m)
unfolding remove_ids remove
remove_ids-cons [] i s m = refl
remove_ids-cons (j ∷ is) i s m = ground (arith, remove_ids-cons is i s (remove j m))

-- Every session of the kind is removed, and counted, once.
sweep_count :
    (test : Session → Bool) (m : HashMap Session)
    → AreDistinct m
    → length (ids_where test m) + length (remove_ids (ids_where test m) m) ≡ length m
unfolding AreDistinct ids_where remove_ids remove
sweep_count test [] d = refl
sweep_count test ((i, s) ∷ m) d = ground (
  arith,
  sweep_count test m d.1,
  remove_ids-cons (ids_where test m) i s m,
  contains-ids_where test m d.1 i,
  remove-absent i m d.0,
  d.0,
)

sweep_lookup :
    (test : Session → Bool) (m : HashMap Session)
    → AreDistinct m
    → (j : ℕ) → lookup j (remove_ids (ids_where test m) m) ≡ spared test (lookup j m)
sweep_lookup test m d j =
    ground (arith, lookup-remove_ids (ids_where test m) m j, contains-ids_where test m d j)

-- In a table without a double id, a cleanup leaves under every id the session that has not
-- expired at its instant and nothing else, and returns by how many sessions the table became
-- smaller.
pub cleanup_expired_lem :
    (m : SessionManager) (now : ℕ)
    → AreDistinct m.sessions
    → ((j : ℕ)
        → lookup j (cleanup_expired m now).0.sessions
          ≡ spared (λ s. is_expired s now) (lookup j m.sessions))
      × ((cleanup_expired m now).1 + session_count (cleanup_expired m now).0 ≡ session_count m)
unfolding cleanup_expired session_count
cleanup_expired_lem m now d = (
  sweep_lookup (λ s. is_expired s now) m.sessions d,
  sweep_count (λ s. is_expired s now) m.sessions d,
)

pub same_text_iff : (a b : Bytes) → ((same_text a b ≡ true) ↔ (a ≡ b))
unfolding same_text
same_text_iff [] [] = ground arith
same_text_iff [] (c ∷ cs) = ground arith
same_text_iff (b ∷ bs) [] = ground arith
same_text_iff (b ∷ bs) (c ∷ cs) = ground (arith, same_text_iff bs cs)

-- In a table without a double id, after the sessions of a user are removed exactly the sessions
-- of other users are found, and the result is by how many sessions the table became smaller.
pub remove_user_sessions_lem :
    (m : SessionManager) (u : Bytes)
    → AreDistinct m.sessions
    → ((j : ℕ) (s : Session)
        → (lookup j (remove_user_sessions m u).0.sessions ≡ some s)
          ↔ ((lookup j m.sessions ≡ some s) × (s.username ≢ u)))
      × ((remove_user_sessions m u).1 + session_count (remove_user_sessions m u).0
          ≡ session_count m)
unfolding remove_user_sessions session_count
remove_user_sessions_lem m u d = (
  λ j s. ground (
    arith,
    sweep_lookup (λ s. same_text s.username u) m.sessions d j,
    same_text_iff s.username u,
  ),
  sweep_count (λ s. same_text s.username u) m.sessions d,
)

-- Every operation that changes the table of sessions keeps a table without a double id so.
pub AreDistinct-step :
    (m : SessionManager)
    → AreDistinct m.sessions
    → ((i now : ℕ) (u : Bytes) → AreDistinct (create_session_with_id m now i u).sessions)
      × ((draw now : ℕ) (u : Bytes) → AreDistinct (create_session m draw now u).0.sessions)
      × ((i : ℕ) → AreDistinct (remove_session m i).0.sessions)
      × ((now i : ℕ) → AreDistinct (has_session m now i).0.sessions)
      × ((now now' i : ℕ) → AreDistinct (get_session m now now' i).0.sessions)
      × ((now now' i : ℕ) (space : Bytes) → AreDistinct (set_space m now now' i space).0.sessions)
      × ((u : Bytes) → AreDistinct (remove_user_sessions m u).0.sessions)
      × ((now : ℕ) → AreDistinct (cleanup_expired m now).0.sessions)
unfolding create_session_with_id create_session remove_session has_session get_session set_space
    remove_user_sessions cleanup_expired store discard
AreDistinct-step m d = (
  λ i now u. insert-AreDistinct i _ m.sessions d,
  λ draw now u. insert-AreDistinct _ _ m.sessions d,
  λ i. remove-AreDistinct i m.sessions d,
  λ now i. ground (arith, remove-AreDistinct i m.sessions d),
  λ now now' i. elim (Option-cases (lookup i m.sessions)) [
    | inl e ↦ ground arith
    | inr (s, e) ↦ ground (
      arith,
      remove-AreDistinct i m.sessions d,
      insert-AreDistinct i (touch m.ttl now' s) m.sessions d,
    )
  ],
  λ now now' i space. elim (Option-cases (lookup i m.sessions)) [
    | inl e ↦ ground arith
    | inr (s, e) ↦ ground (
      arith,
      remove-AreDistinct i m.sessions d,
      insert-AreDistinct i (record s { space = some space; last_accessed = now' }) m.sessions d,
    )
  ],
  λ u. remove_ids-AreDistinct _ m.sessions d,
  λ now. remove_ids-AreDistinct _ m.sessions d,
)
