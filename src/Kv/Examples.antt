-- ===== src/Kv/Examples.antt =====
-- Concrete runs of the theorems on the in-memory key-value store.
use byoridb.Base.{◌≡◌, ◌⊎◌, true, [], ◌∷◌, none, some, arith}
use byoridb.Base.Ordered.{IsSorted}
use byoridb.Raft.Types.{Bytes}
use byoridb.Keys.BigEndian.{ℤ}
use byoridb.Kv.{
  MemoryKvStore, VersionRecord, new, put_version, scan_history, get_as_of, get_as_of_default,
  covers,
}
use byoridb.Kv.Versions.{NoZero, IsTimely}
use byoridb.Kv.AsOf.{IsHistory, get_as_of-get_as_of_default}
use byoridb.Kv.Newest.{Within, Uncovered, IsNewest, put_version-IsHistory, get_as_of_lem}

abbrev first_version : VersionRecord
first_version = record { valid_from = ℤ.pos 10; valid_to = ℤ.pos 20; tx = ℤ.pos 5; value = 1 ∷ [] }

abbrev second_version : VersionRecord
second_version = record {
  valid_from = ℤ.negsuc 3;
  valid_to = ℤ.pos 30;
  tx = ℤ.pos 6;
  value = 2 ∷ [];
}

abbrev key : Bytes
key = 7 ∷ 8 ∷ []

abbrev one_version : MemoryKvStore
one_version = put_version new key (ℤ.pos 10) (ℤ.pos 20) (ℤ.pos 5) (1 ∷ [])

abbrev two_versions : MemoryKvStore
two_versions = put_version one_version key (ℤ.negsuc 3) (ℤ.pos 30) (ℤ.pos 6) (2 ∷ [])

new-IsHistory : IsHistory new.history
unfolding IsSorted
new-IsHistory = record { sorted = tt; versions = tt }

key-NoZero : NoZero key
key-NoZero = ground arith

first-IsTimely : IsTimely first_version
first-IsTimely = record { from = omega arith; to = omega arith; at = omega arith }

second-IsTimely : IsTimely second_version
second-IsTimely = record { from = omega arith; to = omega arith; at = omega arith }

one-IsHistory : IsHistory one_version.history
one-IsHistory = put_version-IsHistory new key first_version key-NoZero first-IsTimely new-IsHistory

two-IsHistory : IsHistory two_versions.history
two-IsHistory =
    put_version-IsHistory one_version key second_version key-NoZero second-IsTimely one-IsHistory

get_as_of-get_as_of_default_example :
    get_as_of two_versions key (ℤ.pos 15) (ℤ.pos 6)
    ≡ get_as_of_default two_versions key (ℤ.pos 15) (ℤ.pos 6)
get_as_of-get_as_of_default_example =
    get_as_of-get_as_of_default two_versions key (ℤ.pos 15) (ℤ.pos 6) two-IsHistory key-NoZero
      (omega arith) (omega arith)

get_as_of_lem_example :
    ((get_as_of two_versions key (ℤ.pos 25) (ℤ.pos 6) ≡ none)
      × Uncovered (scan_history two_versions key) (ℤ.pos 25) (ℤ.pos 6))
    ⊎ ((r : VersionRecord) × (get_as_of two_versions key (ℤ.pos 25) (ℤ.pos 6) ≡ some r.value)
        × Within r (scan_history two_versions key)
        × (covers r (ℤ.pos 25) (ℤ.pos 6) ≡ true)
        × IsNewest r (scan_history two_versions key) (ℤ.pos 25) (ℤ.pos 6))
get_as_of_lem_example =
    get_as_of_lem two_versions key (ℤ.pos 25) (ℤ.pos 6) two-IsHistory key-NoZero (omega arith)
      (omega arith)
