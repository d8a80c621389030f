-- ===== src/Sessions/Examples.antt =====
-- byoridb-graph/src/session.rs: two users with three sessions.
use byoridb.Base.{◌+◌, ◌<◌, ◌≡◌, ◌↔◌, refl, true, [], ◌∷◌, none, some, arith, lookup, insert}
use byoridb.Raft.Types.{Bytes}
use byoridb.Sessions.{Session, SessionManager, with_ttl, create_session_with_id, store, has_session}
use byoridb.Base.Distinct.{AreDistinct}
use byoridb.Sessions.Expiry.{access, IsFrequent, final, access_lem, has_session_lem}

abbrev ann : Bytes
ann = 97 ∷ 110 ∷ []

abbrev bob : Bytes
bob = 98 ∷ 111 ∷ []

-- The third session is opened when the first two have expired.
abbrev manager : SessionManager
manager =
    create_session_with_id
      (create_session_with_id (create_session_with_id (with_ttl 100) 0 7 ann) 50 8 bob) 200 9 ann

manager-AreDistinct : AreDistinct manager.sessions
unfolding AreDistinct with_ttl create_session_with_id store insert lookup
manager-AreDistinct = ground arith

bob_session : Session
bob_session = record {
  id = 8;
  username = bob;
  space = none;
  created_at = 50;
  expires_at = 150;
  last_accessed = 50;
}

bob_stored : lookup 8 manager.sessions ≡ some bob_session
unfolding bob_session with_ttl create_session_with_id store insert lookup
bob_stored = refl

bob_expires : bob_session.expires_at ≡ 50 + manager.ttl
unfolding bob_session with_ttl create_session_with_id store
bob_expires = refl

frequent : IsFrequent manager.ttl 50 ((120, 121) ∷ (220, 220) ∷ [])
unfolding IsFrequent with_ttl create_session_with_id store
frequent = ground arith

access_example :
    ((has_session (access 8 manager ((120, 121) ∷ (220, 220) ∷ [])) 319 8).1 ≡ true)
    ↔ (319 < final 50 ((120, 121) ∷ (220, 220) ∷ []) + manager.ttl)
access_example =
    access_lem ((120, 121) ∷ (220, 220) ∷ []) manager 8 50 bob_session bob_stored bob_expires
      frequent 319

has_session_example : lookup 9 (has_session manager 160 8).0.sessions ≡ lookup 9 manager.sessions
has_session_example = (has_session_lem manager 160 8).1 9
