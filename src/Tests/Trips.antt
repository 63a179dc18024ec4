-- ===== src/Tests/Trips.antt =====
-- The theorems of trips at a trip over the branching trellis.
use routers.Common.{ℕ, ◌-◌, ◌≡◌, refl, [], ◌∷◌, some, arith, length, drop, ◌==◌}
use routers.Trip.Store.{Candidate, CandidateStore, store_tail, store_layer}
use routers.Trip.Phase.{building}
use routers.Trip.State.{Origin, Trip, push_layer, tail, stamp}
use routers.Trip.Aligned.{IsAligned, Pushed, push_layer-Pushed}
use routers.Trip.Cut.{tail-IsAligned}
use routers.Trip.Identity.{
  AreLayers, store_tail-AreLayers, store_layer-AreLayers, store_candidate-location,
}
use routers.Trip.Continuation.{Reconciled, reconcile, reconcile-Reconciled}
use routers.Tests.Trellises.{branching}
use routers.Tests.Solving.{branching-IsValid}

abbrev pub seen : ℕ → Origin ℕ
seen n = record { point = n; timestamp = n }

abbrev pub at : ℕ → ℕ → Candidate ℕ ℕ
at l n = record { edge = n; position = l; emission = 0; location = record { layer = l; node = n } }

abbrev pub places : CandidateStore ℕ ℕ
places = record { layers = (at 0 0 ∷ []) ∷ (at 1 0 ∷ at 1 1 ∷ []) ∷ (at 2 0 ∷ []) ∷ [] }

abbrev pub trip : Trip ℕ ℕ
trip = record {
  origins = seen 1 ∷ seen 2 ∷ seen 3 ∷ [];
  candidates = places;
  state = building branching;
}

pub trip-IsAligned : IsAligned trip
trip-IsAligned = record {
  paired = refl;
  mirrored = record { valid = branching-IsValid; widths_eq = refl };
}

push_layer_example :
    Pushed trip (at 9 9 ∷ at 9 8 ∷ []) (push_layer (seen 4) (at 9 9 ∷ at 9 8 ∷ []) trip)
push_layer_example =
    push_layer-Pushed (seen 4) (at 9 9 ∷ at 9 8 ∷ []) trip trip-IsAligned (omega arith)
      (omega arith)

tail_example :
    (after : Trip ℕ ℕ) × (tail 2 trip ≡ some after)
    × IsAligned after
    × (after.origins ≡ drop (length trip.origins - 2) trip.origins)
tail_example = tail-IsAligned 2 trip trip-IsAligned (omega arith)

reconcile_example :
    Reconciled ◌==◌ trip
      (seen 2 ∷ seen 3 ∷ seen 4 ∷ [])
      (reconcile ◌==◌ (some trip) (seen 2 ∷ seen 3 ∷ seen 4 ∷ []))
reconcile_example =
    reconcile-Reconciled ◌==◌ trip (seen 2 ∷ seen 3 ∷ seen 4 ∷ []) trip-IsAligned (omega arith)

places-AreLayers : AreLayers 0 places.layers
places-AreLayers = ((refl, tt), ((refl, (refl, tt)), ((refl, tt), tt)))

store_tail_example : AreLayers 0 (store_tail 2 places).layers
store_tail_example = store_tail-AreLayers 2 places (omega arith) places-AreLayers

store_layer_example : AreLayers 0 (store_layer (stamp 3 0 (at 9 9 ∷ [])) places).layers
store_layer_example = store_layer-AreLayers (at 9 9 ∷ []) places (omega arith) places-AreLayers

store_candidate_example : (at 1 1).location ≡ record { layer = 1; node = 1 }
store_candidate_example =
    store_candidate-location (record { layer = 1; node = 1 }) places (at 1 1) places-AreLayers refl
