-- ===== src/Sessions/Expiry.antt =====
-- byoridb-graph/src/session.rs: which sessions are alive, and how an access prolongs them.
use byoridb.Base.{
  ℕ, ◌+◌, ◌<◌, ◌≡◌, ◌↔◌, inl, inr, refl, ◌∙◌, Bool, true, false, List, [], ◌∷◌, Option, none, some,
  arith, ◌==◌, if◌then◌else◌, Option-cases, lookup, lookup-remove, lookup-insert,
}
use byoridb.Sessions.{
  Session, SessionManager, is_expired, touch, store, discard, get_session, has_session,
}

-- The session that a reader finds at an instant.
abbrev pub alive : ℕ → Option Session → Option Session
alive now none = none
alive now (some s) = if is_expired s now then none else some s

abbrev touched : ℕ → ℕ → Option Session → Option Session
touched ttl now none = none
touched ttl now (some s) = some (touch ttl now s)

abbrev found : Option Session → Bool
found none = false
found (some s) = true

-- A read returns the session exactly when it is present and not expired, with its last access and
-- its expiry set from the second reading of the clock; the table then holds what was returned
-- under that id and every other id as before, and the time to live is unchanged.
pub get_session_lem :
    (m : SessionManager) (now now' i : ℕ)
    → ((get_session m now now' i).1 ≡ touched m.ttl now' (alive now (lookup i m.sessions)))
      × ((j : ℕ)
          → lookup j (get_session m now now' i).0.sessions
            ≡ (if i == j then (get_session m now now' i).1 else lookup j m.sessions))
      × ((get_session m now now' i).0.ttl ≡ m.ttl)
unfolding get_session store discard
get_session_lem m now now' i = (
  ground arith,
  λ j. elim (Option-cases (lookup i m.sessions)) [
    | inl e ↦ ground arith
    | inr (s, e) ↦
        ground
          (arith, lookup-insert i j (touch m.ttl now' s) m.sessions, lookup-remove i j m.sessions)
  ],
  ground arith,
)

-- `has_session` answers whether the session is alive; it removes an expired one, and leaves
-- every other id as before.
pub has_session_lem :
    (m : SessionManager) (now i : ℕ)
    → ((has_session m now i).1 ≡ found (alive now (lookup i m.sessions)))
      × ((j : ℕ)
          → lookup j (has_session m now i).0.sessions
            ≡ (if i == j then alive now (lookup i m.sessions) else lookup j m.sessions))
unfolding has_session discard
has_session_lem m now i = (ground arith, λ j. ground (arith, lookup-remove i j m.sessions))

-- Reads of one session, with the two clock readings of each, in order.
unfoldable pub access : ℕ → SessionManager → List (ℕ × ℕ) → SessionManager
access i m [] = m
access i m ((t, t') ∷ ts) = access i (get_session m t t' i).0 ts

-- Each read comes less than a time to live after the last one.
unfoldable pub IsFrequent : ℕ → ℕ → List (ℕ × ℕ) → Type 0
IsFrequent ttl last [] = Unit
IsFrequent ttl last ((t, t') ∷ ts) = (t < last + ttl) × IsFrequent ttl t' ts

unfoldable pub final : ℕ → List (ℕ × ℕ) → ℕ
final last [] = last
final last ((t, t') ∷ ts) = final t' ts

access_from :
    (ts : List (ℕ × ℕ)) (ttl : ℕ) (m : SessionManager) (i last : ℕ) (s : Session)
    → m.ttl ≡ ttl
    → lookup i m.sessions ≡ some s
    → s.expires_at ≡ last + ttl
    → IsFrequent ttl last ts
    → (now : ℕ) → ((has_session (access i m ts) now i).1 ≡ true) ↔ (now < final last ts + ttl)
unfolding access IsFrequent final
access_from [] ttl m i last s l e x f now = ground (arith, (has_session_lem m now i).0)
access_from ((t, t') ∷ ts) ttl m i last s l e x f now =
    let (returned, kept, same) = get_session_lem m t t' i in
    access_from ts ttl (get_session m t t' i).0 i t' (touch ttl t' s) (same ∙ l)
      (ground (arith, kept i)) (ground arith) f.1 now

-- When a session expires one time to live after `last`, and reads of it each come within the time
-- to live of the one before (the first of `last`), the session is found at an instant afterwards
-- exactly when the instant comes within the time to live of the final read.
pub access_lem :
    (ts : List (ℕ × ℕ)) (m : SessionManager) (i last : ℕ) (s : Session)
    → lookup i m.sessions ≡ some s
    → s.expires_at ≡ last + m.ttl
    → IsFrequent m.ttl last ts
    → (now : ℕ) → ((has_session (access i m ts) now i).1 ≡ true) ↔ (now < final last ts + m.ttl)
access_lem ts m i last s e x f now = access_from ts m.ttl m i last s refl e x f now
