-- ===== src/Transactions/Versions.antt =====
-- byoridb-executor/src/transaction.rs: the versions that `OptimisticConcurrencyControl` counts.
use byoridb.Base.{◌+◌, ◌<◌, ◌≡◌, refl, true, false, if◌then◌else◌, arith, u64_mod, add64}
use byoridb.Base.Ordered.{same, lookup-insert}
use byoridb.Base.Lex.{lex_ltb, lex-IsOrder}
use byoridb.Raft.Types.{Bytes}
use byoridb.Raft.Storage.Keys.{same_self}
use byoridb.Transactions.{
  OptimisticConcurrencyControl, get_version, increment_version, check_version,
}

get_version-increment_version :
    (c : OptimisticConcurrencyControl) (key k : Bytes)
    → get_version (increment_version c key).0 k
      ≡ (if same lex_ltb key k then add64 (get_version c key) 1 else get_version c k)
unfolding increment_version get_version
get_version-increment_version c key k =
    ground (arith, lookup-insert lex_ltb lex-IsOrder key k (add64 (get_version c key) 1) c.version)

-- After an increment below the last 64-bit version, a check against the version before fails for that key,
-- one against the version returned succeeds, and every other key has its version as before.
pub increment_version_lem :
    (c : OptimisticConcurrencyControl) (key other : Bytes)
    → get_version c key + 1 < u64_mod
    → (check_version (increment_version c key).0 key (get_version c key) ≡ false)
      × (check_version (increment_version c key).0 key (increment_version c key).1 ≡ true)
      × (same lex_ltb key other ≡ false
          → get_version (increment_version c key).0 other ≡ get_version c other)
unfolding check_version add64
increment_version_lem c key other h =
    let returned : (increment_version c key).1 ≡ add64 (get_version c key) 1 =
      unfold increment_version in refl in
    ground (
      arith,
      returned,
      same_self key,
      get_version-increment_version c key key,
      get_version-increment_version c key other,
    )
