-- ===== src/Matcher/Run.antt =====
-- libs/routers_transition/src/matcher/entity.rs: the operations of the matcher on a trip, with `generate`
-- of layer/generation/mod.rs. The candidates of a point, what the weigher asks of the network, and the
-- default of a point are parameters. An error comes with the trip as it is left.

use routers.Common.{ℕ, suc, ◌+◌, List, [], ◌∷◌, map, Option, none, some, as_u32}
use routers.Common.Outcome.{Outcome, ok, err, panic, ◌>>=◌, or_panic}
use routers.Trellis.Types.{LayerId, TrellisError, SolveError, unreachable, not_resolved, FoundPath}
use routers.Trellis.Graph.{Trellis, disconnections}
use routers.Solver.Viterbi.{solve as viterbi}
use routers.Solver.Convergence.{convergence}
use routers.Trip.Solved.{Solved, solve_with}
use routers.Trip.Phase.{TripState, empty, building, solved, path, trellis, map_err}
use routers.Trip.Store.{Candidate}
use routers.Trip.State.{Origin, Trip, next_id, push_layer, point, take_state, restore}
use routers.Matcher.Error.{
  Unanchored, Disconnected, MatchError, unanchored, disconnected, trellis_error, solve_error,
}
use routers.Matcher.Weigh.{Weigher, weigh}
use routers.Matcher.Frontier.{frontier_collapse}

module _ {Edge Point : Type 0} where
  -- What `push` does with the candidates of the observation.
  unfoldable pub push_found :
      Origin Point
      → Trip Edge Point
      → List (Candidate Edge Point)
      → Outcome (MatchError Point × Trip Edge Point) (LayerId × Trip Edge Point)
  push_found origin trip [] =
      err (unanchored (record { layer = next_id trip; origin = origin.point } ∷ []), trip)
  push_found origin trip (c ∷ cs) =
      map_err (λ (e, t). (trellis_error e, t)) (push_layer origin (c ∷ cs) trip)

  -- The points whose layers are empty.
  unfoldable pub unanchored_from :
      ℕ → List (List (Candidate Edge Point)) → List Point → List (Unanchored Point)
  unanchored_from layer [] points = []
  unanchored_from layer (cs ∷ css) [] = []
  unanchored_from layer ([] ∷ css) (p ∷ points) =
      record { layer = layer; origin = p } ∷ unanchored_from (suc layer) css points
  unanchored_from layer ((c ∷ cs) ∷ css) (p ∷ points) = unanchored_from (suc layer) css points

  -- The loop over the observations and their layers; the first error ends it.
  unfoldable pub push_layers :
      List (Origin Point)
      → List (List (Candidate Edge Point))
      → Trip Edge Point
      → Outcome (MatchError Point × Trip Edge Point) (Trip Edge Point)
  push_layers [] css trip = ok trip
  push_layers (origin ∷ origins) [] trip = ok trip
  push_layers (origin ∷ origins) (cs ∷ css) trip =
      map_err (λ (e, t). (trellis_error e, t)) (push_layer origin cs trip) >>= λ (id, after).
      push_layers origins css after

module _ {Edge Point : Type 0} (candidates : Point → LayerId → List (Candidate Edge Point)) where
  -- The layers of the points, the id of the first one and the offset given.
  unfoldable pub generate : LayerId → ℕ → List Point → List (List (Candidate Edge Point))
  generate first_layer offset [] = []
  generate first_layer offset (origin ∷ rest) =
      candidates origin (as_u32 (first_layer + as_u32 offset))
      ∷ generate first_layer (suc offset) rest

  unfoldable pub push :
      Origin Point
      → Trip Edge Point
      → Outcome (MatchError Point × Trip Edge Point) (LayerId × Trip Edge Point)
  unfolding push_found
  push origin trip = push_found origin trip (candidates origin.point (next_id trip))

  unfoldable pub extend :
      List (Origin Point)
      → Trip Edge Point
      → Outcome (MatchError Point × Trip Edge Point) (Trip Edge Point)
  unfolding generate unanchored_from push_layers
  extend origins trip =
      let points = map (λ (o : Origin Point). o.point) origins in
      let per_layer = generate (next_id trip) 0 points in
      elim (unanchored_from (next_id trip) per_layer points) [
        | [] ↦ push_layers origins per_layer trip
        | u ∷ us ↦ err (unanchored (u ∷ us), trip)
      ]

-- `unwrap_or_default`
abbrev pub or_default : {Point : Type 0} → Point → Option Point → Point
or_default default none = default
or_default default (some p) = p

module _ {Edge Point : Type 0} (default : Point) where
  abbrev pub break_at : Trip Edge Point → LayerId → Disconnected Point
  break_at trip boundary = record {
    from_layer = boundary;
    to_layer = boundary + 1;
    from_origin = or_default default (point boundary trip);
    to_origin = or_default default (point (as_u32 (boundary + 1)) trip);
  }

  abbrev pub disconnected_at : Trip Edge Point → List LayerId → MatchError Point
  disconnected_at trip breaks = disconnected (map (break_at trip) breaks)

  -- `trip.path().expect(..)`
  abbrev pub solved_path :
      Trip Edge Point → Outcome (MatchError Point × Trip Edge Point) (FoundPath × Trip Edge Point)
  solved_path trip = or_panic (path trip.state) >>= λ found. ok (found, trip)

  -- What follows the solver.
  unfoldable pub settle :
      Trip Edge Point
      → Outcome (Trellis × SolveError) Solved
      → Outcome (MatchError Point × Trip Edge Point) (FoundPath × Trip Edge Point)
  unfolding frontier_collapse
  settle trip panic = panic
  settle trip (ok s) = solved_path (restore (solved s) trip)
  settle trip (err (t, unreachable)) = or_panic (frontier_collapse t) >>= λ breaks.
      err (disconnected_at trip breaks, restore (building t) trip)
  settle trip (err (t, not_resolved l)) =
      err (solve_error (not_resolved l), restore (building t) trip)

  -- What follows the weighing.
  unfoldable pub solve_weighed :
      Trip Edge Point
      → Outcome (TrellisError × Trellis) Trellis
      → Outcome (MatchError Point × Trip Edge Point) (FoundPath × Trip Edge Point)
  unfolding settle
  solve_weighed trip panic = panic
  solve_weighed trip (err (e, t)) = err (trellis_error e, restore (building t) trip)
  solve_weighed trip (ok t) = elim (disconnections t) [
    | [] ↦ settle trip (solve_with viterbi t)
    | gap ∷ gaps ↦ err (disconnected_at trip (gap ∷ gaps), restore (building t) trip)
  ]

  unfoldable pub solve_taken :
      {Reachable : Type 0}
      → Weigher Edge Point Reachable
      → TripState
      → Trip Edge Point
      → Outcome (MatchError Point × Trip Edge Point) (FoundPath × Trip Edge Point)
  unfolding solve_weighed
  solve_taken w empty trip = err (trellis_error TrellisError.empty, trip)
  solve_taken w (solved s) trip = solved_path (restore (solved s) trip)
  solve_taken w (building t) trip = solve_weighed trip (weigh w trip.candidates t)

  unfoldable pub solve :
      {Reachable : Type 0}
      → Weigher Edge Point Reachable
      → Trip Edge Point
      → Outcome (MatchError Point × Trip Edge Point) (FoundPath × Trip Edge Point)
  unfolding solve_taken
  solve w trip = let (state, taken) = take_state trip in solve_taken w state taken

-- The convergence point of the trip's trellis.
unfoldable pub trip_convergence :
    {Edge Point : Type 0} → Trip Edge Point → Outcome (MatchError Point) (Option LayerId)
trip_convergence trip = elim (trellis trip.state) [
  | none ↦ err (trellis_error TrellisError.empty)
  | some t ↦ map_err solve_error (convergence t)
]
