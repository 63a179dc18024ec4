-- ===== src/Matcher/Numbered.antt =====
-- libs/routers_transition/src/matcher/entity.rs: the places of a route, and the numbered points of a line.
use routers.Common.{
  ℕ, zero, suc, ◌+◌, ◌<◌, ◌≡◌, refl, ap, ◌∙◌, List, [], ◌∷◌, map, some, arith, length, u32_mod, ap₂,
  get_elem?, as_u32_of_lt,
}
use mathlib.Core.Option.{some-injective}
use routers.Trellis.Types.{NodeId}
use routers.Trip.State.{Origin}
use routers.Matcher.Route.{route_from, numbered_origins}

pub length-route_from :
    (layer : ℕ) (nodes : List NodeId) → length (route_from layer nodes) ≡ length nodes
unfolding route_from
length-route_from layer [] = refl
length-route_from layer (n ∷ ns) = ap suc (length-route_from (suc layer) ns)

pub route_from-get_elem? :
    (layer i : ℕ) (nodes : List NodeId) {n : NodeId}
    → layer + i < u32_mod
    → get_elem? nodes i ≡ some n
    → get_elem? (route_from layer nodes) i ≡ some (record { layer = layer + i; node = n })
unfolding route_from
route_from-get_elem? layer i [] small e = absurd (ground arith)
route_from-get_elem? layer zero (m ∷ ns) {n} small e =
    ap₂ (λ l k. some (record { layer = l; node = k }))
      (as_u32_of_lt layer (omega arith) ∙ plus_zero layer) (some-injective m n e)
  where
    plus_zero : (k : ℕ) → k ≡ k + 0
    plus_zero k = omega arith
route_from-get_elem? layer (suc i) (m ∷ ns) {n} small e =
    route_from-get_elem? (suc layer) i ns (omega arith) e
    ∙ ap (λ l. some (record { layer = l; node = n })) (step layer i)
  where
    step : (k j : ℕ) → suc k + j ≡ k + suc j
    step k j = omega arith

module _ {Point : Type 0} where
  pub length-numbered_origins :
      (i : ℕ) (points : List Point) → length (numbered_origins i points) ≡ length points
  unfolding numbered_origins
  length-numbered_origins i [] = refl
  length-numbered_origins i (p ∷ ps) = ap suc (length-numbered_origins (suc i) ps)

  pub points-numbered_origins :
      (i : ℕ) (points : List Point)
      → map (λ (o : Origin Point). o.point) (numbered_origins i points) ≡ points
  unfolding numbered_origins
  points-numbered_origins i [] = refl
  points-numbered_origins i (p ∷ ps) = ap (λ qs. p ∷ qs) (points-numbered_origins (suc i) ps)
