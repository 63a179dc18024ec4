-- ===== src/Routing/Cost.antt =====
-- libs/routers_transition/src/primitives/weight_and_distance.rs: the cost of a route. The product in floating
-- point is exact below 2^32, and the conversion stops at the largest `u32`.
use routers.Common.{ℕ, ◌+◌, ◌-◌, ◌*◌, ◌/◌, Bool, min, if◌then◌else◌, ltb, ◌==◌, u32_mod, as_u32}

pub record WeightAndDistance : Type 0 where
  pub numerator : ℕ
  pub denominator : ℕ
  pub distance_cm : ℕ

-- The running average weight.
unfoldable pub weight : WeightAndDistance → ℕ
weight c = if c.denominator == 0 then 0 else c.numerator / c.denominator

unfoldable pub repr : WeightAndDistance → ℕ
unfolding weight
repr c = min (weight c * weight c * c.distance_cm) (u32_mod - 1)

unfoldable pub add_cost : WeightAndDistance → WeightAndDistance → WeightAndDistance
add_cost a b = record {
  numerator = as_u32 (a.numerator + b.numerator);
  denominator = as_u32 (a.denominator + b.denominator);
  distance_cm = as_u32 (a.distance_cm + b.distance_cm);
}

abbrev pub zero_cost : WeightAndDistance
zero_cost = record { numerator = 0; denominator = 0; distance_cm = 0 }

-- Costs are compared by what they represent.
unfoldable pub cost_lt : WeightAndDistance → WeightAndDistance → Bool
unfolding repr
cost_lt a b = ltb (repr a) (repr b)
