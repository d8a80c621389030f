-- ===== src/Base/Pairs.antt =====
-- The lexicographic order of pairs, for tables whose keys are pairs.
use mathlib.Core.Bool.{Bool, true, false}
use native.Mathlib.Omega.{arith}
use byoridb.Base.Tests.{if◌then◌else◌, ltb}
use byoridb.Base.Ordered.{IsOrder}

pub ltb-IsOrder : IsOrder ltb
ltb-IsOrder = record {
  irrefl = λ a. ground arith;
  trans = λ a b c h k. ground arith;
  connected = λ a b h k. ground arith;
}

module _ {A B : Type 0} (lt_a : A → A → Bool) (lt_b : B → B → Bool) where
  abbrev pub pair_ltb : A × B → A × B → Bool
  pair_ltb (a, b) (c, d) = if lt_a a c then true else if lt_a c a then false else lt_b b d

  module _ (o : IsOrder lt_a) (p : IsOrder lt_b) where
    pub pair-IsOrder : IsOrder pair_ltb
    pair-IsOrder = record {
      irrefl = λ (a, b). ground (arith, o.irrefl a, p.irrefl b);
      trans = λ (a, b) (c, d) (e, f) h k.
          ground (arith, h, k, o.trans a c e, o.connected a c, o.connected c e, p.trans b d f);
      connected = λ (a, b) (c, d) h k. ground (arith, h, k, o.connected a c, p.connected b d);
    }
