-- ===== src/Trip/State.antt =====
-- libs/routers_transition/src/matcher/trip.rs: a trip and its operations, with the observations of
-- origin.rs. A panic of `tail` is `none`.
use routers.Common.{
  ℕ, suc, ◌-◌, List, [], ◌∷◌, ◌++◌, map, Option, none, some, Bool, min, length, get_elem?, drop,
  if◌then◌else◌, ◌==◌, leb, as_u32, u32_mod, ◌+◌,
}
use mathlib.Core.Option
use routers.Common.Maybe.{◌>>=◌}
use routers.Common.Outcome.{Outcome, ok, err, panic}
use routers.Trellis.Types.{LayerId, TrellisError, max_weight}
use routers.Trellis.Graph.{Trellis}
use routers.Trellis.Edit.{fill_nodes}
use routers.Trip.Phase.{TripState, empty, building, tail_state, grow}
use routers.Trip.Store.{Candidate, CandidateStore, store_layer, store_tail}

-- The timestamp is only compared: the number of its 64 bits.
pub record Origin (Point : Type 0) : Type 0 where
  pub point : Point
  pub timestamp : ℕ

pub record Trip (Edge Point : Type 0) : Type 0 where
  pub origins : List (Origin Point)
  pub candidates : CandidateStore Edge Point
  pub state : TripState

module _ {Edge Point : Type 0} where
  abbrev pub new_trip : Trip Edge Point
  new_trip = record { origins = []; candidates = record { layers = [] }; state = empty }

  abbrev pub trip_layers : Trip Edge Point → ℕ
  trip_layers trip = length trip.origins

  abbrev pub is_empty : Trip Edge Point → Bool
  is_empty trip = trip_layers trip == 0

  abbrev pub trip_last_id : Trip Edge Point → Option LayerId
  trip_last_id trip =
      if is_empty trip then none else some (as_u32 (as_u32 (trip_layers trip) + (u32_mod - 1)))

  abbrev pub next_id : Trip Edge Point → LayerId
  next_id trip = as_u32 (trip_layers trip)

  abbrev pub point : LayerId → Trip Edge Point → Option Point
  point l trip = Option.map (λ (o : Origin Point). o.point) (get_elem? trip.origins l)

  unfoldable pub tail : ℕ → Trip Edge Point → Option (Trip Edge Point)
  tail n trip =
      let len = trip_layers trip in
      if leb len n then some trip else if n == 0 then some new_trip else do
        state ← tail_state n trip.state
        some (record {
          origins = drop (len - n) trip.origins;
          candidates = store_tail n trip.candidates;
          state = state;
        })

  -- Each candidate is stamped with where it landed.
  unfoldable pub stamp : LayerId → ℕ → List (Candidate Edge Point) → List (Candidate Edge Point)
  stamp id i [] = []
  stamp id i (c ∷ cs) =
      record c { location = record { layer = id; node = as_u32 i } } ∷ stamp id (suc i) cs

  abbrev pub emission_weight : Candidate Edge Point → ℕ
  emission_weight c = min c.emission max_weight

  -- What follows the growth of the trellis. An error comes with the trip as it is left.
  unfoldable pub land :
      Origin Point
      → List (Candidate Edge Point)
      → Trip Edge Point
      → Outcome (TrellisError × TripState) (Trellis × LayerId)
      → Outcome (TrellisError × Trip Edge Point) (LayerId × Trip Edge Point)
  unfolding stamp
  land origin candidates trip panic = panic
  land origin candidates trip (err (e, state)) = err (e, record trip { state = state })
  land origin candidates trip (ok (t, id)) =
      let stamped = stamp id 0 candidates in
      elim (fill_nodes id (map emission_weight stamped) t) [
        | panic ↦ panic
        | err e ↦ err (e, record trip { state = empty })
        | ok u ↦ ok (
          id,
          record {
            origins = trip.origins ++ (origin ∷ []);
            candidates = store_layer stamped trip.candidates;
            state = building u;
          },
        )
      ]

  unfoldable pub push_layer :
      Origin Point
      → List (Candidate Edge Point)
      → Trip Edge Point
      → Outcome (TrellisError × Trip Edge Point) (LayerId × Trip Edge Point)
  unfolding land
  push_layer origin candidates trip =
      land origin candidates trip (grow (as_u32 (length candidates)) trip.state)

  abbrev pub take_state : Trip Edge Point → TripState × Trip Edge Point
  take_state trip = (trip.state, record trip { state = empty })

  abbrev pub restore : TripState → Trip Edge Point → Trip Edge Point
  restore state trip = record trip { state = state }

  abbrev pub into_parts : Trip Edge Point → CandidateStore Edge Point × TripState
  into_parts trip = (trip.candidates, trip.state)
