-- ===== src/Matcher/Route.antt =====
-- libs/routers_transition/src/matcher/entity.rs: the solved route, and matching a whole trajectory.

use routers.Common.{ℕ, suc, List, [], ◌∷◌, Option, none, some, Bool, true, false, ◌&&◌, as_u32}
use routers.Common.Outcome.{Outcome, ok, ◌>>=◌}
use routers.Trellis.Types.{LayerId, NodeId, FoundPath}
use routers.Trip.Phase.{map_err}
use routers.Trip.Store.{CandidateRef, Candidate, CandidateStore}
use routers.Trip.State.{Origin, Trip, new_trip}
use routers.Matcher.Error.{MatchError}
use routers.Matcher.Weigh.{Weigher}
use routers.Matcher.Run.{extend, solve}

-- `enumerate()` over the nodes, from a layer on.
unfoldable pub route_from : ℕ → List NodeId → List CandidateRef
route_from layer [] = []
route_from layer (node ∷ nodes) =
    record { layer = as_u32 layer; node = node } ∷ route_from (suc layer) nodes

unfoldable pub route_of : FoundPath → List CandidateRef
unfolding route_from
route_of path = route_from 0 path.nodes

-- The numbered points of a line.
unfoldable pub numbered_origins : {Point : Type 0} → ℕ → List Point → List (Origin Point)
numbered_origins index [] = []
numbered_origins index (p ∷ ps) =
    record { point = p; timestamp = index } ∷ numbered_origins (suc index) ps

-- What `collapse` derives.
pub record Collapse (Reachable : Type 0) : Type 0 where
  pub cost : ℕ
  pub route : List CandidateRef
  pub interpolated : List Reachable

pub record CollapsedPath (Edge Point Reachable : Type 0) : Type 0 where
  pub collapse : Collapse Reachable
  pub candidates : CandidateStore Edge Point

module _ {Edge Point Reachable : Type 0} (default : Point) (w : Weigher Edge Point Reachable) where
  -- `windows(2)` with `filter_map`: the hops that are reached.
  unfoldable pub interpolate : CandidateStore Edge Point → List CandidateRef → List Reachable
  interpolate s [] = []
  interpolate s (from ∷ []) = []
  interpolate s (from ∷ to ∷ rest) =
      let later = interpolate s (to ∷ rest) in
      elim (w.reach s from to) [ none ↦ later | some hop ↦ hop ∷ later ]

  unfoldable pub collapse :
      Trip Edge Point
      → Outcome (MatchError Point × Trip Edge Point) (Collapse Reachable × Trip Edge Point)
  unfolding route_of interpolate
  collapse trip = solve default w trip >>= λ (path, after). ok (
    record {
      cost = path.cost;
      route = route_of path;
      interpolated = interpolate after.candidates (route_of path);
    },
    after,
  )

  abbrev pub snapshot :
      Trip Edge Point
      → Outcome
          (MatchError Point × Trip Edge Point)
          (CollapsedPath Edge Point Reachable × Trip Edge Point)
  snapshot trip = collapse trip >>= λ (c, after).
      ok (record { collapse = c; candidates = after.candidates }, after)

  unfoldable pub match_line :
      (Point → LayerId → List (Candidate Edge Point))
      → List Point
      → Outcome (MatchError Point) (CollapsedPath Edge Point Reachable)
  unfolding collapse numbered_origins
  match_line candidates points =
      map_err (λ (e, t). e)
        (extend candidates (numbered_origins 0 points) new_trip >>= λ trip.
          collapse trip >>= λ (c, after).
          ok (record { collapse = c; candidates = after.candidates }))

abbrev pub is_some : {A : Type 0} → Option A → Bool
is_some none = false
is_some (some a) = true

-- Every candidate resolves against the network.
module _ {Edge Point Node Place : Type 0} (source target : Edge → Node)
    (place : Node → Option Place) where
  abbrev pub resolves_all : List (Candidate Edge Point) → Bool
  resolves_all [] = true
  resolves_all (c ∷ cs) =
      (is_some (place (source c.edge)) && is_some (place (target c.edge))) && resolves_all cs

  abbrev pub supports_layers : List (List (Candidate Edge Point)) → Bool
  supports_layers [] = true
  supports_layers (layer ∷ rest) = resolves_all layer && supports_layers rest

  abbrev pub supports : Trip Edge Point → Bool
  supports trip = supports_layers trip.candidates.layers
