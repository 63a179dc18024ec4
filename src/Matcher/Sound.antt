-- ===== src/Matcher/Sound.antt =====
-- The invariant of a trip that a matcher drives, and that a push keeps it.
use routers.Common.{
  suc, ◌<◌, ◌≡◌, refl, ap, List, [], ◌∷◌, ◌++◌, map, arith, length, u32_mod, as_u32,
}
use routers.Common.Outcome.{Outcome, ok, err, panic}
use routers.Trellis.Types.{LayerId, TrellisError}
use routers.Trellis.Graph.{Trellis}
use routers.Trellis.Edit.{fill_nodes}
use routers.Trip.Phase.{TripState, empty, building, solved, grow}
use routers.Trip.Store.{Candidate}
use routers.Trip.State.{Origin, Trip, new_trip, push_layer, land, stamp, emission_weight}
use routers.Trip.Certificate.{IsCertificate}
use routers.Trip.Aligned.{IsAligned, push_layer-Pushed, Pushed}

-- A solved state holds a certificate.
abbrev pub IsCertified : TripState → Type 0
IsCertified empty = Unit
IsCertified (building t) = Unit
IsCertified (solved s) = IsCertificate s

module _ {Edge Point : Type 0} where
  pub record IsSound (trip : Trip Edge Point) : Type 0 where
    pub aligned : IsAligned trip
    pub certified : IsCertified trip.state

  pub new_trip-IsSound : IsSound new_trip
  new_trip-IsSound = record { aligned = record { paired = refl; mirrored = refl }; certified = tt }

  -- What a push that succeeds writes.
  abbrev Lands :
      Origin Point
      → Trip Edge Point
      → Outcome (TrellisError × Trip Edge Point) (LayerId × Trip Edge Point)
      → Type 0
  Lands origin trip (ok (id, after)) =
      (after.origins ≡ trip.origins ++ (origin ∷ [])) × IsCertified after.state
  Lands origin trip (err r) = Unit
  Lands origin trip panic = Unit

  push_layer-Lands :
      (origin : Origin Point) (cs : List (Candidate Edge Point)) (trip : Trip Edge Point)
      → Lands origin trip (push_layer origin cs trip)
  unfolding push_layer
  push_layer-Lands origin cs trip = of_grown (grow (as_u32 (length cs)) trip.state)
    where
      of_filled :
          (t : Trellis) (id : LayerId) (r : Outcome TrellisError Trellis)
          → Lands origin trip (elim r [
            | panic ↦ panic
            | err e ↦ err (e, record trip { state = empty })
            | ok u ↦ ok (
              id,
              record {
                origins = trip.origins ++ (origin ∷ []);
                candidates = record { layers = trip.candidates.layers ++ (stamp id 0 cs ∷ []) };
                state = building u;
              },
            )
          ])
      of_filled t id (ok u) = (refl, tt)
      of_filled t id (err e) = tt
      of_filled t id panic = tt

      of_grown :
          (g : Outcome (TrellisError × TripState) (Trellis × LayerId))
          → Lands origin trip (land origin cs trip g)
      of_grown panic = unfold land in tt
      of_grown (err r) = unfold land in tt
      of_grown (ok (t, id)) =
          unfold land in of_filled t id (fill_nodes id (map emission_weight (stamp id 0 cs)) t)

  -- A push that succeeds: a sound trip with the observation added.
  pub record IsPushed (origin : Origin Point) (trip after : Trip Edge Point) (id : LayerId)
      : Type 0 where
    pub sound : IsSound after
    pub id_eq : id ≡ length trip.origins
    pub origins_eq : after.origins ≡ trip.origins ++ (origin ∷ [])
    pub count : length after.origins ≡ suc (length trip.origins)

  pub push_layer-IsPushed :
      (origin : Origin Point) (c : Candidate Edge Point) (cs : List (Candidate Edge Point))
      (trip : Trip Edge Point)
      → IsAligned trip
      → length (c ∷ cs) < u32_mod
      → length trip.origins < u32_mod
      → (id : LayerId) × (after : Trip Edge Point) × (push_layer origin (c ∷ cs) trip
          ≡ ok (id, after))
        × IsPushed origin trip after id
  push_layer-IsPushed origin c cs trip a word small =
      of_result (push_layer origin (c ∷ cs) trip)
        (push_layer-Pushed origin (c ∷ cs) trip a word small)
        (push_layer-Lands origin (c ∷ cs) trip)
    where
      not_nil : (c ∷ cs) ≡ [] → ⊥
      not_nil e = absurd (omega (arith, ap length e))

      of_result :
          (r : Outcome (TrellisError × Trip Edge Point) (LayerId × Trip Edge Point))
          → Pushed trip (c ∷ cs) r
          → Lands origin trip r
          → (id : LayerId) × (after : Trip Edge Point) × (r ≡ ok (id, after))
            × IsPushed origin trip after id
      of_result (ok (id, after)) p l = (
        id,
        after,
        refl,
        record {
          sound = record { aligned = p.0; certified = l.1 };
          id_eq = p.1;
          origins_eq = l.0;
          count = p.2;
        },
      )
      of_result (err r) p l = absurd (not_nil p)
      of_result panic p l = absurd p
