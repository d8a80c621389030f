-- ===== src/Auth/Examples.antt =====
-- The theorems on byoridb-graph/src/auth.rs at a limiter with a budget of one failure for an account.
use byoridb.Base.{◌≡◌, refl, true, [], ◌∷◌, none, some, arith}
use byoridb.Base.Ordered as Tree
use byoridb.Base.Ordered.{IsSorted}
use byoridb.Base.Lex.{lex_ltb}
use byoridb.Raft.Types.{Bytes}
use byoridb.Auth.{
  LoginThrottleConfig, LoginRateLimiter, new, default_config, refused, account_key, record_failure,
  retry_after, keys, prune, check_keys, expire,
}
use byoridb.Auth.Limits.{IsBounded, record_failure-IsBounded}
use byoridb.Auth.Budgets.{is_admitted}
use byoridb.Auth.Sliding.{AllTimely}
use byoridb.Auth.Waits.{has_budget, retry_after_lem, retry_after-waited}

abbrev plain : Bytes → Bytes
plain name = name

abbrev one_failure : LoginThrottleConfig
one_failure = record default_config { window = 60; max_account_failures_per_window = 1 }

abbrev unused : LoginRateLimiter
unused = new one_failure

-- The user "a"
abbrev user : Bytes
user = 97 ∷ []

abbrev failed : LoginRateLimiter
failed = record { failures = (account_key user, 100 ∷ []) ∷ []; config = one_failure }

unused-IsBounded : IsBounded 60 unused.failures
unfolding IsSorted
unused-IsBounded = record { sorted = tt; few = omega arith; short = tt }

record_failure_example :
    IsBounded 60 (record_failure plain unused 100 user (some (49 ∷ []))).failures
record_failure_example =
    record_failure-IsBounded plain unused 100 60 user (some (49 ∷ [])) (omega arith) (omega arith)
      (omega arith) unused-IsBounded

failed-IsBounded : IsBounded 1 failed.failures
unfolding IsSorted
failed-IsBounded = record { sorted = (tt, tt); few = omega arith; short = (omega arith, tt) }

failed-AllTimely : AllTimely 110 failed.failures
failed-AllTimely = ((omega arith, tt, tt), tt)

retry_after_example :
    is_admitted (retry_after plain failed 110 user (some (49 ∷ []))).1
    ≡ has_budget plain failed 110 user (some (49 ∷ []))
retry_after_example =
    retry_after_lem plain failed 110 user (some (49 ∷ [])) (omega arith) (omega arith) (omega arith)
      (omega arith) failed-AllTimely

refused_now : (retry_after plain failed 110 user none).1 ≡ refused 50
unfolding retry_after keys prune check_keys expire Tree.lookup lex_ltb
refused_now = refl

waited_example :
    is_admitted (retry_after plain (retry_after plain failed 110 user none).0 161 user none).1
    ≡ true
waited_example =
    retry_after-waited plain failed 110 50 161 user failed-IsBounded (omega arith) (omega arith)
      (omega arith) refused_now (omega arith)
