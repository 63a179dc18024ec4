-- ===== src/Matcher/Batch.antt =====
-- libs/routers_transition/src/matcher/entity.rs: `push` and `extend` are all or nothing, and a batch is the
-- pushes one by one.

use routers.Common.{
  ℕ, suc, ◌+◌, ◌<◌, ◌≡◌, ◌≢◌, refl, ap, ◌∙◌, sym, subst, List, [], ◌∷◌, ◌++◌, map, arith, length,
  u32_mod, as_u32, as_u32_of_lt, append-nil, append_assoc,
}
use routers.Common.Outcome.{Outcome, ok, err, panic, ◌>>=◌}
use routers.Trellis.Types.{LayerId}
use routers.Trip.Store.{Candidate}
use routers.Trip.State.{Origin, Trip, next_id}
use routers.Matcher.Error.{Unanchored, MatchError, unanchored}
use routers.Matcher.Run.{generate, push, push_found, unanchored_from, push_layers, extend}
use routers.Matcher.Sound.{IsSound, IsPushed, push_layer-IsPushed}

module _ {Edge Point : Type 0} (candidates : Point → LayerId → List (Candidate Edge Point))
    (words : (p : Point) (l : LayerId) → length (candidates p l) < u32_mod) where
  -- What `push` answers: a sound trip with the observation added, or the trip as it was with an error that
  -- names the observation, which has no candidate.
  abbrev pub PushAnswer :
      Origin Point
      → Trip Edge Point
      → Outcome (MatchError Point × Trip Edge Point) (LayerId × Trip Edge Point)
      → Type 0
  PushAnswer origin trip (ok (id, after)) =
      (candidates origin.point (length trip.origins) ≢ []) × IsPushed origin trip after id
  PushAnswer origin trip (err (e, after)) =
      (candidates origin.point (length trip.origins) ≡ [])
      × (after ≡ trip)
      × (e ≡ unanchored (record { layer = length trip.origins; origin = origin.point } ∷ []))
  PushAnswer origin trip panic = ⊥

  push_found-PushAnswer :
      (origin : Origin Point) (trip : Trip Edge Point) (cs : List (Candidate Edge Point))
      → IsSound trip
      → length trip.origins < u32_mod
      → candidates origin.point (length trip.origins) ≡ cs
      → length cs < u32_mod
      → PushAnswer origin trip (push_found origin trip cs)
  unfolding push_found
  push_found-PushAnswer origin trip [] s small e word =
      (e, refl, rw (as_u32_of_lt (length trip.origins) small) refl)
  push_found-PushAnswer origin trip (c ∷ cs) s small e word =
      let (id, after, done, pushed) = push_layer-IsPushed origin c cs trip s.aligned word small in
      rw done ((λ nil. absurd (omega (arith, ap length (sym e ∙ nil)))), pushed)

  -- On a sound trip of fewer than 2^32 layers `push` does not panic. If the point has a candidate the trip is
  -- sound and has the observation at its end, and the id is the number of layers before; otherwise the trip is
  -- unchanged and the error names the point and the layer.
  pub push-PushAnswer :
      (origin : Origin Point) (trip : Trip Edge Point)
      → IsSound trip
      → length trip.origins < u32_mod
      → PushAnswer origin trip (push candidates origin trip)
  unfolding push
  push-PushAnswer origin trip s small =
      push_found-PushAnswer origin trip (candidates origin.point (next_id trip)) s small
        (ap (candidates origin.point) (sym (as_u32_of_lt (length trip.origins) small)))
        (words origin.point (next_id trip))

  -- The observations pushed one by one.
  abbrev pub push_each :
      List (Origin Point)
      → Trip Edge Point
      → Outcome (MatchError Point × Trip Edge Point) (Trip Edge Point)
  push_each [] trip = ok trip
  push_each (origin ∷ origins) trip =
      push candidates origin trip >>= λ (id, after). push_each origins after

  -- A batch that is taken: the loop of `extend` and the pushes agree.
  record Taken (origins : List (Origin Point)) (css : List (List (Candidate Edge Point)))
      (trip : Trip Edge Point) : Type 0 where
    pub after : Trip Edge Point
    pub looped : push_layers origins css trip ≡ ok after
    pub pushed : push_each origins trip ≡ ok after
    pub sound : IsSound after
    pub origins_eq : after.origins ≡ trip.origins ++ origins

  abbrev points_of : List (Origin Point) → List Point
  points_of origins = map (λ (o : Origin Point). o.point) origins

  -- The first observation of a batch, and the rest from where it leads.
  take_one :
      (origin : Origin Point) (origins : List (Origin Point)) (trip : Trip Edge Point)
      (cs : List (Candidate Edge Point)) (css : List (List (Candidate Edge Point))) (layer : ℕ)
      → IsSound trip
      → length trip.origins < u32_mod
      → candidates origin.point (next_id trip) ≡ cs
      → length cs < u32_mod
      → unanchored_from layer (cs ∷ css) (origin.point ∷ points_of origins) ≡ []
      → ((after : Trip Edge Point) (id : LayerId)
          → IsPushed origin trip after id
          → unanchored_from (suc layer) css (points_of origins) ≡ []
          → Taken origins css after)
      → Taken (origin ∷ origins) (cs ∷ css) trip
  unfolding unanchored_from push_layers push push_found
  take_one origin origins trip [] css layer s small found word e rest = absurd (ground arith)
  take_one origin origins trip (c ∷ cs) css layer s small found word e rest =
      let (id, after, done, pushed) = push_layer-IsPushed origin c cs trip s.aligned word small in
      let taken = rest after id pushed e in
      record {
        after = taken.after;
        looped = rw done taken.looped;
        pushed = rw (found, done) taken.pushed;
        sound = taken.sound;
        origins_eq =
            taken.origins_eq
            ∙ ap (λ os. os ++ origins) pushed.origins_eq
            ∙ append_assoc trip.origins (origin ∷ []) origins;
      }

  push_layers-Taken :
      (first offset layer : ℕ) (origins : List (Origin Point)) (trip : Trip Edge Point)
      → IsSound trip
      → length trip.origins ≡ first + offset
      → first + offset + length origins < u32_mod
      → unanchored_from layer
          (generate candidates first offset (points_of origins))
          (points_of origins)
        ≡ []
      → Taken origins (generate candidates first offset (points_of origins)) trip
  unfolding generate unanchored_from push_layers
  push_layers-Taken first offset layer [] trip s at small e = record {
    after = trip;
    looped = refl;
    pushed = refl;
    sound = s;
    origins_eq = sym (append-nil trip.origins);
  }
  push_layers-Taken first offset layer (origin ∷ origins) trip s at small e =
      let same : as_u32 (first + as_u32 offset) ≡ as_u32 (length trip.origins) =
        ap (λ n. as_u32 (first + n)) (as_u32_of_lt offset (omega arith)) ∙ ap as_u32 (sym at) in
      take_one origin origins trip (candidates origin.point (as_u32 (first + as_u32 offset)))
        (generate candidates first (suc offset) (points_of origins)) layer s (omega (arith, at))
        (ap (candidates origin.point) (sym same))
        (words origin.point (as_u32 (first + as_u32 offset))) e
        (λ after id pushed e'.
          push_layers-Taken first (suc offset) (suc layer) origins after pushed.sound
            (omega (arith, pushed.count, at)) (omega arith) e')

  -- What `extend` answers: every observation is pushed, or nothing is.
  abbrev pub ExtendAnswer :
      List (Origin Point)
      → Trip Edge Point
      → Outcome (MatchError Point × Trip Edge Point) (Trip Edge Point)
      → Type 0
  ExtendAnswer origins trip (ok after) =
      IsSound after
      × (after.origins ≡ trip.origins ++ origins)
      × (push_each origins trip ≡ ok after)
  ExtendAnswer origins trip (err (e, after)) =
      (after ≡ trip)
      × (u : Unanchored Point) × (us : List (Unanchored Point)) × (e ≡ unanchored (u ∷ us))
      × (unanchored_from (length trip.origins)
            (generate candidates (length trip.origins) 0 (points_of origins)) (points_of origins)
          ≡ u ∷ us)
  ExtendAnswer origins trip panic = ⊥

  -- On a sound trip `extend` to fewer than 2^32 layers does not panic. Either it succeeds as the pushes one by
  -- one do, and the trip is sound and has the observations at its end; or it fails with the points that have
  -- no candidate, of which there is one, and the trip is unchanged.
  pub extend-ExtendAnswer :
      (origins : List (Origin Point)) (trip : Trip Edge Point)
      → IsSound trip
      → length trip.origins + length origins < u32_mod
      → ExtendAnswer origins trip (extend candidates origins trip)
  unfolding extend
  extend-ExtendAnswer origins trip s small =
      subst
        (λ n.
          ExtendAnswer origins trip
            (elim (unanchored_from n (generate candidates n 0 (points_of origins))
              (points_of origins)) [
                | [] ↦ push_layers origins (generate candidates n 0 (points_of origins)) trip
                | v ∷ vs ↦ err (unanchored (v ∷ vs), trip)
              ]))
        (sym (as_u32_of_lt (length trip.origins) (omega arith)))
        (of_list
          (unanchored_from (length trip.origins)
            (generate candidates (length trip.origins) 0 (points_of origins)) (points_of origins))
          refl)
    where
      of_list :
          (us : List (Unanchored Point))
          → unanchored_from
              (length trip.origins)
              (generate candidates (length trip.origins) 0 (points_of origins))
              (points_of origins)
            ≡ us
          → ExtendAnswer origins trip (elim us [
            | [] ↦
                push_layers origins
                  (generate candidates (length trip.origins) 0 (points_of origins))
                  trip
            | v ∷ vs ↦ err (unanchored (v ∷ vs), trip)
          ])
      of_list [] e =
          let taken =
            push_layers-Taken (length trip.origins) 0 (length trip.origins) origins trip s
              (omega arith) (omega arith) e in
          rw taken.looped (taken.sound, taken.origins_eq, taken.pushed)
      of_list (v ∷ vs) e = (refl, v, vs, refl, e)
