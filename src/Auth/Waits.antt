-- ===== src/Auth/Waits.antt =====
-- byoridb-graph/src/auth.rs: when a login is admitted, and that the time to wait is enough.
use byoridb.Base.{
  ℕ, ◌+◌, ◌-◌, ◌≤◌, ◌<◌, ◌≡◌, refl, sym, ap, subst, ◌∙◌, Bool, true, false, ◌&&◌, [], ◌∷◌, Option,
  none, some, length, ltb, leb, arith,
}
use byoridb.Raft.Types.{Bytes}
use byoridb.Auth.{
  LoginRateLimiter, Failures, Admission, admitted, refused, max_rate_limit_keys, account_key,
  source_key, expire, cutoff_at, prune, check_keys, keys, retry_after,
}
use byoridb.Auth.Limits.{IsBounded, length-expire, length-insert_known, lookup-short}
use byoridb.Auth.Sliding.{recorded, count_within, AllTimely, recent_lem}
use byoridb.Auth.Budgets.{
  is_admitted, recent, touched, check-over, admission-one, admission-two, recent-seen,
  account-source, expire-later,
}

module _ (normal : Bytes → Bytes) where
  -- A table with room is only looked at.
  retry_after-room :
      (l : LoginRateLimiter) (now : ℕ) (username : Bytes) (source : Option Bytes)
      → length l.failures < max_rate_limit_keys
      → retry_after normal l now username source ≡ (
        record l {
          failures =
              (check_keys l.config.window now l.failures
                (keys normal l.config username source)
                admitted).0;
        },
        (check_keys l.config.window now l.failures
            (keys normal l.config username source)
            admitted).1,
      )
  unfolding retry_after prune
  retry_after-room l now username source h =
      let room : leb max_rate_limit_keys (length l.failures) ≡ false = ground arith in
      rw (room, prune) (rw room refl)

  -- Whether the budgets of an attempt are not used up at the moment.
  abbrev is_under : LoginRateLimiter → ℕ → Bytes → Option Bytes → Bool
  is_under l now username none =
      ltb (recent l.config.window now l.failures (account_key (normal username)))
        l.config.max_account_failures_per_window
  is_under l now username (some source) =
      ltb (recent l.config.window now l.failures (account_key (normal username)))
        l.config.max_account_failures_per_window
      && ltb (recent l.config.window now l.failures (source_key source))
          l.config.max_source_failures_per_window

  retry_after-recent :
      (l : LoginRateLimiter) (now : ℕ) (username : Bytes) (source : Option Bytes)
      → length l.failures < max_rate_limit_keys
      → 0 < l.config.max_account_failures_per_window
      → 0 < l.config.max_source_failures_per_window
      → is_admitted (retry_after normal l now username source).1 ≡ is_under l now username source
  unfolding keys
  retry_after-recent l now username none h z y =
      ap (λ (r : LoginRateLimiter × Admission). is_admitted r.1)
        (retry_after-room l now username none h)
      ∙ admission-one l.config.window now l.failures (account_key (normal username))
          l.config.max_account_failures_per_window z
  retry_after-recent l now username (some source) h z y =
      ap (λ (r : LoginRateLimiter × Admission). is_admitted r.1)
        (retry_after-room l now username (some source) h)
      ∙ admission-two l.config.window now l.failures (account_key (normal username))
          (source_key source) l.config.max_account_failures_per_window
          l.config.max_source_failures_per_window z y (account-source (normal username) source)

  -- Whether an attempt has failures left in the window, for the account and for the address.
  abbrev pub has_budget : LoginRateLimiter → ℕ → Bytes → Option Bytes → Bool
  has_budget l now username none =
      ltb (count_within l.config.window now (recorded l.failures (account_key (normal username))))
        l.config.max_account_failures_per_window
  has_budget l now username (some source) =
      ltb (count_within l.config.window now (recorded l.failures (account_key (normal username))))
        l.config.max_account_failures_per_window
      && ltb (count_within l.config.window now (recorded l.failures (source_key source)))
          l.config.max_source_failures_per_window

  under-has_budget :
      (l : LoginRateLimiter) (now : ℕ) (username : Bytes) (source : Option Bytes)
      → l.config.window ≤ now
      → AllTimely now l.failures
      → is_under l now username source ≡ has_budget l now username source
  under-has_budget l now username none w a =
      rw (recent_lem l.config.window now l.failures (account_key (normal username)) w a) refl
  under-has_budget l now username (some source) w a =
      rw
        (
          recent_lem l.config.window now l.failures (account_key (normal username)) w a,
          recent_lem l.config.window now l.failures (source_key source) w a,
        )
        refl

  -- With budgets above 0, a table that is not full and holds each key's failures in order and
  -- none later than now, and a clock at least one window on, a login is admitted exactly when the
  -- failures on record that lie at most one window back are fewer than the budget, for the
  -- account and, where the address is known, for the address.
  pub retry_after_lem :
      (l : LoginRateLimiter) (now : ℕ) (username : Bytes) (source : Option Bytes)
      → length l.failures < max_rate_limit_keys
      → 0 < l.config.max_account_failures_per_window
      → 0 < l.config.max_source_failures_per_window
      → l.config.window ≤ now
      → AllTimely now l.failures
      → is_admitted (retry_after normal l now username source).1 ≡ has_budget l now username source
  retry_after_lem l now username source h z y w a =
      retry_after-recent l now username source h z y ∙ under-has_budget l now username source w a

  -- When a login without an address is refused with a time to wait, by a table in order that is
  -- not full and holds no more failures of a key than the account's budget, with budgets above 0,
  -- a login of that account after that time is admitted by the table as the refusal left it.
  pub retry_after-waited :
      (l : LoginRateLimiter) (now wait later : ℕ) (username : Bytes)
      → IsBounded l.config.max_account_failures_per_window l.failures
      → length l.failures < max_rate_limit_keys
      → 0 < l.config.max_account_failures_per_window
      → 0 < l.config.max_source_failures_per_window
      → (retry_after normal l now username none).1 ≡ refused wait
      → now + wait < later
      → is_admitted
          (retry_after normal (retry_after normal l now username none).0 later username none).1
        ≡ true
  unfolding keys check_keys
  retry_after-waited l now wait later username b h z y e after =
      let window = l.config.window in
      let key = account_key (normal username) in
      let limit = l.config.max_account_failures_per_window in
      let decided = retry_after-recent l now username none h z y in
      let full : ltb (recent window now l.failures key) limit ≡ false =
        sym decided ∙ ap is_admitted e in
      let (oldest, newer, entries, found, kept, step) =
        check-over window now l.failures key limit [] admitted z full in
      let r = retry_after-room l now username none h ∙ ap (paired l) step in
      let wait_eq : oldest + window - now ≡ wait =
        refused_inj (sym (ap (λ (p : LoginRateLimiter × Admission). p.1) r) ∙ e) in
      let seen = touched window now l.failures key in
      let room : length seen < max_rate_limit_keys = rw found (
        ground (
          arith,
          length-insert_known key (expire entries (cutoff_at window now)) entries l.failures
              b.sorted found,
        )) in
      let before = lookup-short limit key entries l.failures b.short found in
      let shorter : length (oldest ∷ newer) ≤ length entries =
        subst (λ es. length es ≤ length entries) kept
          (length-expire entries (cutoff_at window now)) in
      let passed : oldest + window < later = omega (arith, wait_eq) in
      let fewer = expire-later window later oldest newer passed in
      let seen_eq : recent window later seen key
          ≡ length (expire (oldest ∷ newer) (cutoff_at window later)) =
        recent-seen window now later l.failures key entries found
        ∙ ap (λ es. length (expire es (cutoff_at window later))) kept in
      let few : recent window later seen key < limit =
        omega (arith, seen_eq, fewer, shorter, before) in
      ap
        (λ (p : LoginRateLimiter × Admission).
          is_admitted (retry_after normal p.0 later username none).1)
        r
      ∙ retry_after-recent (record l { failures = seen }) later username none room z y
      ∙ ground (arith, few)
    where
      paired : LoginRateLimiter → Failures × Admission → LoginRateLimiter × Admission
      paired l c = (record l { failures = c.0 }, c.1)

      refused_inj : {u v : ℕ} → refused u ≡ refused v → u ≡ v
      refused_inj q = cc
