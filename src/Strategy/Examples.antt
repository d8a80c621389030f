-- ===== src/Strategy/Examples.antt =====
-- Concrete runs of the theorems on partitions.
use byoridb.Base.{◌≡◌, ◌≤◌, refl, List, [], ◌∷◌, arith}
use byoridb.Keys.BigEndian.{ℤ}
use byoridb.Kv.{lt_i64}
use byoridb.Strategy.{range, compute_partition, valid, validate, check_increasing}
use byoridb.Strategy.Bounds.{compute_partition-bounds}

abbrev three : List ℤ
three = ℤ.negsuc 9 ∷ ℤ.pos 0 ∷ ℤ.pos 100 ∷ []

three_valid : validate (range three) 4 ≡ valid
unfolding validate check_increasing lt_i64
three_valid = refl

compute_partition-bounds_example :
    (1 ≤ compute_partition (range three) (ℤ.pos 7) 4)
    × (compute_partition (range three) (ℤ.pos 7) 4 ≤ 4)
compute_partition-bounds_example =
    compute_partition-bounds (range three) (ℤ.pos 7) 4 three_valid (omega arith)
