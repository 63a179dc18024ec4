-- ===== src/Matcher/Fresh.antt =====
-- libs/routers_transition/src/matcher/entity.rs: the trip that a batch of points makes of a new one.
use routers.Common.{
  ℕ, suc, ◌+◌, ◌<◌, ◌≡◌, refl, ap, ap₂, ◌∙◌, sym, subst, List, [], ◌∷◌, ◌++◌, map, some, arith,
  length, get_elem?, u32_mod, as_u32_of_lt, All-get_elem?, get_elem?-some,
}
use routers.Common.Outcome.{Outcome, ok, err, panic, ◌>>=◌, ok-injective}
use routers.Trellis.Types.{LayerId, TrellisError, pending}
use routers.Trellis.Graph.{Trellis}
use routers.Trip.Phase.{building, map_err}
use routers.Trip.Store.{Candidate, CandidateStore}
use routers.Trip.State.{Origin, Trip, new_trip, push_layer}
use routers.Trip.Aligned.{IsAligned, Mirrors, StateMirrors}
use routers.Matcher.Error.{MatchError, trellis_error}
use routers.Matcher.Run.{push, push_found}
use routers.Matcher.Sound.{IsSound}
use routers.Matcher.Batch.{PushAnswer, push-PushAnswer, push_each}
use routers.Matcher.Laid.{
  placed, emissions, IsPending, IsBlank, StateBlank, LaysBlank, push_layer-LaysBlank,
}

module _ {Edge Point : Type 0} (candidates : Point → LayerId → List (Candidate Edge Point)) where
  -- The candidates of the points in their places, from a layer on.
  abbrev pub laid : LayerId → List Point → List (List (Candidate Edge Point))
  laid l [] = []
  laid l (p ∷ ps) = placed l 0 (candidates p l) ∷ laid (suc l) ps

  laid-append :
      (l : LayerId) (ps : List Point) (p : Point)
      → laid l (ps ++ (p ∷ []))
        ≡ laid l ps ++ (placed (l + length ps) 0 (candidates p (l + length ps)) ∷ [])
  laid-append l [] p = ap (λ k. placed k 0 (candidates p k) ∷ []) (plus_zero l)
    where
      plus_zero : (k : ℕ) → k ≡ k + 0
      plus_zero k = omega arith
  laid-append l (q ∷ ps) p =
      ap (λ ls. placed l 0 (candidates q l) ∷ ls)
        (laid-append (suc l) ps p
          ∙ ap (λ k. laid (suc l) ps ++ (placed k 0 (candidates p k) ∷ [])) (shift l (length ps)))
    where
      shift : (a b : ℕ) → suc a + b ≡ a + suc b
      shift a b = omega arith

  -- A store of the points' candidates, and a trellis that holds their emissions and is not weighed yet.
  pub record IsFresh (points : List Point) (s : CandidateStore Edge Point) (t : Trellis)
      : Type 0 where
    pub layers_eq : s.layers ≡ laid 0 points
    pub mirrors : Mirrors t s.layers
    pub emissions_eq : t.nodes ≡ emissions s.layers
    pub waits : (i : ℕ) → i < length t.transitions → get_elem? t.transitions i ≡ some pending

  abbrev points_of : List (Origin Point) → List Point
  points_of origins = map (λ (o : Origin Point). o.point) origins

  points_of-append :
      (os : List (Origin Point)) (o : Origin Point)
      → points_of (os ++ (o ∷ [])) ≡ points_of os ++ (o.point ∷ [])
  points_of-append [] o = refl
  points_of-append (q ∷ os) o = ap (λ ps. q.point ∷ ps) (points_of-append os o)

  length-points_of : (os : List (Origin Point)) → length (points_of os) ≡ length os
  length-points_of [] = refl
  length-points_of (o ∷ os) = ap suc (length-points_of os)

  -- A trip that only pushes have led to.
  pub record IsLaid (trip : Trip Edge Point) : Type 0 where
    pub layers_eq : trip.candidates.layers ≡ laid 0 (points_of trip.origins)
    pub blank : StateBlank trip.state trip.candidates.layers

  pub new_trip-IsLaid : IsLaid new_trip
  new_trip-IsLaid = record { layers_eq = refl; blank = refl }

  push-LaysBlank :
      (origin : Origin Point) (trip : Trip Edge Point)
      → IsAligned trip
      → StateBlank trip.state trip.candidates.layers
      → length (candidates origin.point (length trip.origins)) < u32_mod
      → length trip.origins < u32_mod
      → LaysBlank trip (candidates origin.point (length trip.origins)) (push candidates origin trip)
  unfolding push push_found
  push-LaysBlank origin trip a blank word small =
      subst
        (λ cs.
          LaysBlank trip (candidates origin.point (length trip.origins))
            (push_found origin trip cs))
        (ap (candidates origin.point) (sym (as_u32_of_lt (length trip.origins) small)))
        (of_list (candidates origin.point (length trip.origins)) word)
    where
      of_result :
          (cs : List (Candidate Edge Point))
          (r : Outcome (TrellisError × Trip Edge Point) (LayerId × Trip Edge Point))
          → LaysBlank trip cs r
          → LaysBlank {X = MatchError Point × Trip Edge Point} trip cs
              (map_err (λ (q : TrellisError × Trip Edge Point). (trellis_error q.0, q.1)) r)
      of_result cs (ok x) h = h
      of_result cs (err x) h = tt
      of_result cs panic h = tt

      of_list :
          (cs : List (Candidate Edge Point))
          → length cs < u32_mod
          → LaysBlank trip cs (push_found origin trip cs)
      of_list [] h = tt
      of_list (c ∷ cs) h =
          of_result (c ∷ cs) (push_layer origin (c ∷ cs) trip)
            (push_layer-LaysBlank origin (c ∷ cs) trip a blank h small)

  module _ (words : (p : Point) (l : LayerId) → length (candidates p l) < u32_mod) where
    pub push_each-IsLaid :
        (origins : List (Origin Point)) (trip after : Trip Edge Point)
        → IsSound trip
        → IsLaid trip
        → length trip.origins + length origins < u32_mod
        → push_each candidates words origins trip ≡ ok after
        → IsLaid after
    push_each-IsLaid [] trip after s h small e = subst IsLaid (ok-injective trip after e) h
    push_each-IsLaid (o ∷ os) trip after s h small e =
        of_push (push candidates o trip) (push-PushAnswer candidates words o trip s (omega arith))
          (push-LaysBlank o trip s.aligned h.blank (words o.point (length trip.origins))
            (omega arith))
          e (push_each-IsLaid os)
      where
        zero_plus : (k : ℕ) → k ≡ 0 + k
        zero_plus k = omega arith

        of_push :
            (r : Outcome (MatchError Point × Trip Edge Point) (LayerId × Trip Edge Point))
            → PushAnswer candidates words o trip r
            → LaysBlank trip (candidates o.point (length trip.origins)) r
            → (r >>= λ (x : LayerId × Trip Edge Point). push_each candidates words os x.1)
              ≡ ok after
            → ((mid end : Trip Edge Point)
                → IsSound mid
                → IsLaid mid
                → length mid.origins + length os < u32_mod
                → push_each candidates words os mid ≡ ok end
                → IsLaid end)
            → IsLaid after
        of_push (ok (id, mid)) (_, pushed) (layers_eq, blank) q rest =
            rest mid after pushed.sound
              (record {
                layers_eq =
                    layers_eq
                    ∙ ap₂ (λ ls n. ls ++ (placed n 0 (candidates o.point n) ∷ [])) h.layers_eq
                        (sym (length-points_of trip.origins)
                          ∙ zero_plus (length (points_of trip.origins)))
                    ∙ sym (laid-append 0 (points_of trip.origins) o.point)
                    ∙ ap (laid 0) (sym (points_of-append trip.origins o))
                    ∙ ap (λ xs. laid 0 (points_of xs)) (sym pushed.origins_eq);
                blank = blank;
              })
              (omega (arith, pushed.count)) q
        of_push (err x) p b q rest = absurd (ground arith)
        of_push panic p b q rest = absurd (ground arith)

  -- Such a trip of at least one layer.
  pub IsFresh-of_laid :
      (trip : Trip Edge Point) (t : Trellis)
      → IsAligned trip
      → IsLaid trip
      → trip.state ≡ building t
      → IsFresh (points_of trip.origins) trip.candidates t
  IsFresh-of_laid trip t a h e =
      let blank : IsBlank t trip.candidates.layers =
        subst (λ st. StateBlank st trip.candidates.layers) e h.blank in
      record {
        layers_eq = h.layers_eq;
        mirrors = subst (λ st. StateMirrors st trip.candidates.layers) e a.mirrored;
        emissions_eq = blank.emissions_eq;
        waits = λ i inside.
            let (x, at) = get_elem?-some t.transitions i inside in
            at ∙ ap some (All-get_elem? IsPending t.transitions i blank.waits at);
      }
