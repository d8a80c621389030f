-- ===== src/Index/Scans/Operators.antt =====
-- byoridb-storage/src/index.rs: the operators of a range lookup against the limits that they set.
use byoridb.Base.{◌-◌, ◌≡◌, refl, Bool, true, false, not, ◌&&◌, ◌||◌, arith}
use byoridb.Keys.BigEndian.{ℤ, pos, negsuc, i64_limit, IsI64}
use byoridb.Keys.Values.{IndexValue, null, bool, int, float, string}
use byoridb.Kv.{lt_i64}
use byoridb.Index.Scans.{
  RangeOperator, greater_than, greater_than_or_equal, less_than, less_than_or_equal,
}
use byoridb.Index.Scans.Bounds.{below, at_bound}

-- The integers that an operator accepts, against the value it is given.
unfoldable pub accepts : RangeOperator → ℤ → ℤ → Bool
accepts greater_than x y = lt_i64 x y
accepts greater_than_or_equal x y = not (lt_i64 y x)
accepts less_than x y = lt_i64 y x
accepts less_than_or_equal x y = not (lt_i64 x y)

abbrev pub least : ℤ
least = negsuc (i64_limit - 1)

abbrev pub greatest : ℤ
greatest = pos (i64_limit - 1)

abbrev pub low : RangeOperator → ℤ → ℤ
low greater_than x = x
low greater_than_or_equal x = x
low less_than x = least
low less_than_or_equal x = least

abbrev pub high : RangeOperator → ℤ → ℤ
high greater_than x = greatest
high greater_than_or_equal x = greatest
high less_than x = x
high less_than_or_equal x = x

abbrev pub from_it : RangeOperator → Bool
from_it greater_than = false
from_it greater_than_or_equal = true
from_it less_than = true
from_it less_than_or_equal = true

abbrev pub to_it : RangeOperator → Bool
to_it greater_than = false
to_it greater_than_or_equal = false
to_it less_than = true
to_it less_than_or_equal = false

pub low-IsI64 : (op : RangeOperator) (x : ℤ) → IsI64 x → IsI64 (low op x)
low-IsI64 greater_than x h = h
low-IsI64 greater_than_or_equal x h = h
low-IsI64 less_than x h = omega arith
low-IsI64 less_than_or_equal x h = omega arith

pub high-IsI64 : (op : RangeOperator) (x : ℤ) → IsI64 x → IsI64 (high op x)
high-IsI64 greater_than x h = omega arith
high-IsI64 greater_than_or_equal x h = omega arith
high-IsI64 less_than x h = h
high-IsI64 less_than_or_equal x h = h

-- What an entry with a value has to be for the limits of the range.
abbrev pub inside : RangeOperator → ℤ → IndexValue → Bool
inside op x v =
    not (below v (low op x) || (not (from_it op) && at_bound v (low op x)))
    && (below v (high op x) || (not (to_it op) && at_bound v (high op x)))

least_lem : (y : ℤ) → IsI64 y → lt_i64 y least ≡ false
unfolding lt_i64
least_lem (pos n) h = refl
least_lem (negsuc n) h = ground arith

greatest_lem : (y : ℤ) → IsI64 y → lt_i64 greatest y ≡ false
unfolding lt_i64
greatest_lem (pos n) h = ground arith
greatest_lem (negsuc n) h = refl

lt_i64-total : (x y : ℤ) → lt_i64 x y ≡ true → lt_i64 y x ≡ false
unfolding lt_i64
lt_i64-total (pos a) (pos b) h = ground arith
lt_i64-total (pos a) (negsuc b) h = cc
lt_i64-total (negsuc a) (pos b) h = refl
lt_i64-total (negsuc a) (negsuc b) h = ground arith

pub inside-int : (op : RangeOperator) (x y : ℤ) → IsI64 y → inside op x (int y) ≡ accepts op x y
unfolding accepts
inside-int greater_than x y h = ground (arith, greatest_lem y h, lt_i64-total x y)
inside-int greater_than_or_equal x y h = ground (arith, greatest_lem y h, lt_i64-total x y)
inside-int less_than x y h = ground (arith, least_lem y h, lt_i64-total x y)
inside-int less_than_or_equal x y h = ground (arith, least_lem y h, lt_i64-total y x)

-- Only integers are inside.
pub inside-is-int :
    (op : RangeOperator) (x : ℤ) (v : IndexValue) → inside op x v ≡ true → (y : ℤ) × (v ≡ int y)
inside-is-int op x null h = absurd (ground arith)
inside-is-int op x (bool b) h = absurd (ground arith)
inside-is-int op x (int y) h = (y, refl)
inside-is-int op x (float bits) h = absurd (ground arith)
inside-is-int op x (string s) h = absurd (ground arith)
