-- ===== src/Auth.antt =====
-- byoridb-graph/src/auth.rs: the limits on failed logins, `LoginThrottleConfig` and `LoginRateLimiter`. An
-- `Instant` and a `Duration` are nanoseconds, and no sum of them overflows. `trim` and
-- `to_ascii_lowercase` of a name are a parameter (`normal`); an address is its text. The `HashMap` of the failures is
-- kept in the order of its keys. The lock is held for the whole of a call.
pub mod Budgets
pub mod Limits
pub mod Sliding
pub mod Waits
mod Examples
use byoridb.Base.{
  ℕ, ◌+◌, ◌-◌, ◌*◌, Bool, true, false, not, ◌&&◌, List, [], ◌∷◌, ◌++◌, Option, none, some, length,
  is_empty, last?, retain, ltb, leb, ◌==◌, if◌then◌else◌,
}
use byoridb.Base.Ordered as Tree
use byoridb.Base.Lex.{lex_ltb}
use byoridb.Raft.Types.{Bytes}

pub record LoginThrottleConfig : Type 0 where
  pub window : ℕ
  pub max_account_failures_per_window : ℕ
  pub max_source_failures_per_window : ℕ
  pub max_concurrent_verifications : ℕ
  pub max_failed_attempts : ℕ
  pub lockout_duration : ℕ

-- The texts of `validate`, without the advice in them.
pub data Problem : Type 0 where
  no_window no_account_budget no_source_budget no_verifications no_attempts : Problem

abbrev pub problem : Bool → Problem → List Problem → List Problem
problem found p problems = if found then p ∷ problems else problems

unfoldable pub validate : LoginThrottleConfig → List Problem
validate c = problem (c.window == 0) no_window (
    problem (c.max_account_failures_per_window == 0) no_account_budget (
      problem (c.max_source_failures_per_window == 0) no_source_budget (
        problem (c.max_concurrent_verifications == 0) no_verifications
          (problem (c.max_failed_attempts == 0) no_attempts []))))

abbrev pub seconds : ℕ → ℕ
seconds n = n * 1000000000

abbrev pub default_config : LoginThrottleConfig
default_config = record {
  window = seconds 60;
  max_account_failures_per_window = 20;
  max_source_failures_per_window = 60;
  max_concurrent_verifications = 4;
  max_failed_attempts = 5;
  lockout_duration = seconds 300;
}

abbrev pub max_rate_limit_keys : ℕ
max_rate_limit_keys = 10000

abbrev pub Failures : Type 0
Failures = List (Bytes × List ℕ)

pub record LoginRateLimiter : Type 0 where
  pub failures : Failures
  pub config : LoginThrottleConfig

abbrev pub new : LoginThrottleConfig → LoginRateLimiter
new config = record { failures = []; config = config }

-- "account:" and "source:"
abbrev pub account_key : Bytes → Bytes
account_key name = 97 ∷ 99 ∷ 99 ∷ 111 ∷ 117 ∷ 110 ∷ 116 ∷ 58 ∷ name

abbrev pub source_key : Bytes → Bytes
source_key source = 115 ∷ 111 ∷ 117 ∷ 114 ∷ 99 ∷ 101 ∷ 58 ∷ source

unfoldable pub expire : List ℕ → ℕ → List ℕ
expire [] cutoff = []
expire (entry ∷ entries) cutoff =
    let rest = expire entries cutoff in if ltb entry cutoff then rest else entry ∷ entries

-- `now.checked_sub(window).unwrap_or(now)`
abbrev pub cutoff_at : ℕ → ℕ → ℕ
cutoff_at window now = if leb window now then now - window else now

abbrev pub is_fresh : ℕ → List ℕ → Bool
is_fresh cutoff entries = elim (last? entries) [ none ↦ false | some entry ↦ leb cutoff entry ]

-- What both methods do first with a table that is full.
unfoldable pub prune : ℕ → Failures → Failures
prune cutoff failures =
    if leb max_rate_limit_keys (length failures)
    then retain (λ e. is_fresh cutoff e.1) failures
    else failures

-- The result of `retry_after`: `None`, a time to wait, or the panic of `expect`.
pub data Admission : Type 0 where
  admitted : Admission
  refused : ℕ → Admission
  panic : Admission

abbrev pub longest : Admission → ℕ → Admission
longest admitted wait = refused wait
longest (refused so_far) wait = refused (if ltb so_far wait then wait else so_far)
longest panic wait = panic

abbrev pub is_missing : Failures → List (Bytes × ℕ) → Bool
is_missing failures [] = false
is_missing failures ((key, limit) ∷ keys) = elim (Tree.lookup lex_ltb key failures) [
  | none ↦ true
  | some entries ↦ is_missing failures keys
]

-- The loop of `retry_after` over the keys.
unfoldable pub check_keys : ℕ → ℕ → Failures → List (Bytes × ℕ) → Admission → Failures × Admission
unfolding expire
check_keys window now failures [] result = (failures, result)
check_keys window now failures ((key, limit) ∷ keys) result =
    elim (Tree.lookup lex_ltb key failures) [
      | none ↦ check_keys window now failures keys result
      | some entries ↦
          let entries = expire entries (cutoff_at window now) in
          let failures = Tree.insert lex_ltb key entries failures in
          elim (ltb (length entries) limit) [
            | true ↦ check_keys window now failures keys result
            | false ↦ elim entries [
              | [] ↦ (failures, panic)
              | oldest ∷ newer ↦
                  check_keys window now failures keys (longest result (oldest + window - now))
            ]
          ]
    ]

-- The body of the loop of `record_failure`.
unfoldable pub charge : ℕ → ℕ → Failures → Bytes × ℕ → Failures
unfolding expire
charge window now failures (key, limit) =
    let has_budget_for_a_new_key = ltb (length failures) max_rate_limit_keys in
    elim (Tree.lookup lex_ltb key failures) [
      | some entries ↦
          let entries = expire entries (cutoff_at window now) in
          Tree.insert lex_ltb key
            (if ltb (length entries) limit then entries ++ now ∷ [] else entries) failures
      | none ↦
          if has_budget_for_a_new_key then Tree.insert lex_ltb key (now ∷ []) failures else failures
    ]

abbrev pub charge_all : ℕ → ℕ → Failures → List (Bytes × ℕ) → Failures
charge_all window now failures [] = failures
charge_all window now failures (key ∷ keys) =
    charge_all window now (charge window now failures key) keys

module _ (normal : Bytes → Bytes) where
  unfoldable pub keys : LoginThrottleConfig → Bytes → Option Bytes → List (Bytes × ℕ)
  keys c username none = (account_key (normal username), c.max_account_failures_per_window) ∷ []
  keys c username (some source) =
      (account_key (normal username), c.max_account_failures_per_window)
      ∷ (source_key source, c.max_source_failures_per_window)
      ∷ []

  unfoldable pub retry_after :
      LoginRateLimiter → ℕ → Bytes → Option Bytes → LoginRateLimiter × Admission
  unfolding keys prune check_keys
  retry_after l now username source =
      let window = l.config.window in
      let names = keys l.config username source in
      let failures = prune (cutoff_at window now) l.failures in
      let checked = check_keys window now failures names admitted in
      if leb max_rate_limit_keys (length failures) && is_missing failures names
      then (record l { failures = failures }, refused window)
      else (record l { failures = checked.0 }, checked.1)

  unfoldable pub record_failure : LoginRateLimiter → ℕ → Bytes → Option Bytes → LoginRateLimiter
  unfolding keys prune charge
  record_failure l now username source =
      let window = l.config.window in
      record l {
        failures =
            charge_all window now (prune (cutoff_at window now) l.failures)
              (keys l.config username source);
      }
