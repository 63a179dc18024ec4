-- ===== src/Matcher/Laid.antt =====
-- What a batch of points lays down on a new trip: the layers of their candidates, each stamped with its place,
-- the emissions as the weights of the nodes, and boundaries that are all pending
-- (libs/routers_transition/src/matcher/entity.rs and trip.rs).
use routers.Common.{
  ℕ, zero, suc, ◌+◌, ◌≤◌, ◌<◌, ◌≡◌, refl, ap, ap₂, ◌∙◌, sym, subst, List, [], ◌∷◌, ◌++◌, map, some,
  All, arith, min, length, get_elem?, take, drop, u32_mod, as_u32, as_u32_of_lt, length-append,
  length-map, take-append, drop-append, append-nil, append_assoc, All-append, replicate,
  get_elem?-append,
}
use routers.Common.Outcome.{Outcome, ok, err, panic}
use routers.Trellis.Types.{LayerId, TrellisError, Transition, pending, max_weight}
use routers.Trellis.Graph.{Trellis, sum}
use routers.Trellis.Effects.{
  single, new_lem, new_empty, add_layer_lem, add_layer_empty, fill_nodes_lem,
}
use routers.Trip.Phase.{TripState, empty, building, solved, grow}
use routers.Trip.Store.{Candidate}
use routers.Trip.State.{Origin, Trip, push_layer, land, stamp, emission_weight}
use routers.Trip.Aligned.{IsAligned, GrowsTo, grow-GrowsTo, emissions_small, length-stamp}

abbrev pub IsPending : Transition → Type 0
IsPending x = x ≡ pending

take_all : (xs : List ℕ) → take (length xs) xs ≡ xs
take_all xs = ap (take (length xs)) (sym (append-nil xs)) ∙ take-append xs []

drop_all : (xs : List ℕ) → drop (length xs) xs ≡ []
drop_all xs = ap (drop (length xs)) (sym (append-nil xs)) ∙ drop-append xs []

module _ {Edge Point : Type 0} where
  -- Candidates with their places: those of a layer from a node on.
  abbrev pub placed : LayerId → ℕ → List (Candidate Edge Point) → List (Candidate Edge Point)
  placed l i [] = []
  placed l i (c ∷ cs) =
      record {
        edge = c.edge;
        position = c.position;
        emission = c.emission;
        location = record { layer = l; node = i };
      }
      ∷ placed l (suc i) cs

  -- The emissions of all candidates in order, each at most the greatest weight.
  abbrev pub emissions : List (List (Candidate Edge Point)) → List ℕ
  emissions [] = []
  emissions (cs ∷ css) =
      map (λ (c : Candidate Edge Point). min c.emission max_weight) cs ++ emissions css

  stamp-placed :
      (l i : ℕ) (cs : List (Candidate Edge Point))
      → i + length cs ≤ u32_mod
      → stamp l i cs ≡ placed l i cs
  unfolding stamp
  stamp-placed l i [] small = refl
  stamp-placed l i (c ∷ cs) small =
      ap₂ ◌∷◌
        (ap
          (λ k. record {
            edge = c.edge;
            position = c.position;
            emission = c.emission;
            location = record { layer = l; node = k };
          })
          (as_u32_of_lt i (omega arith)))
        (stamp-placed l (suc i) cs (omega arith))

  emissions-append :
      (xss : List (List (Candidate Edge Point))) (cs : List (Candidate Edge Point))
      → emissions (xss ++ (cs ∷ [])) ≡ emissions xss ++ map emission_weight cs
  emissions-append [] cs = append-nil (map emission_weight cs)
  emissions-append (xs ∷ xss) cs =
      ap (λ ns. map emission_weight xs ++ ns) (emissions-append xss cs)
      ∙ sym (append_assoc (map emission_weight xs) (emissions xss) (map emission_weight cs))

  length-emissions :
      (xss : List (List (Candidate Edge Point))) → length (emissions xss) ≡ sum (map length xss)
  length-emissions [] = refl
  length-emissions (xs ∷ xss) = omega (
    arith,
    length-append (map emission_weight xs) (emissions xss),
    length-map emission_weight xs,
    length-emissions xss,
  )

  -- A trellis of layers with their emissions, and nothing weighed yet.
  pub record IsBlank (t : Trellis) (layers : List (List (Candidate Edge Point))) : Type 0 where
    pub emissions_eq : t.nodes ≡ emissions layers
    pub waits : All IsPending t.transitions

  abbrev pub StateBlank : TripState → List (List (Candidate Edge Point)) → Type 0
  StateBlank empty layers = layers ≡ []
  StateBlank (building t) layers = IsBlank t layers
  StateBlank (solved s) layers = ⊥

  -- What `grow` gives of it: the old emissions in front of the new nodes.
  abbrev GrowsBlank :
      List (List (Candidate Edge Point))
      → Outcome (TrellisError × TripState) (Trellis × LayerId)
      → Type 0
  GrowsBlank layers (ok (t, l)) =
      (take (sum (map length layers)) t.nodes ≡ emissions layers) × All IsPending t.transitions
  GrowsBlank layers (err r) = Unit
  GrowsBlank layers panic = Unit

  grow-GrowsBlank :
      (width : ℕ) (state : TripState) (layers : List (List (Candidate Edge Point)))
      → StateBlank state layers
      → GrowsBlank layers (grow width state)
  grow-GrowsBlank zero empty layers h = rw (new_empty, GrowsBlank, grow) tt
  grow-GrowsBlank zero (building t) layers h = rw (add_layer_empty t) tt
  grow-GrowsBlank (suc w) empty layers h =
      rw (new_lem (suc w) (omega arith), grow, GrowsBlank)
        (ap (λ ls. take (sum (map length ls)) (single (suc w)).nodes) h ∙ ap emissions (sym h), tt)
  grow-GrowsBlank (suc w) (building t) layers h = rw (add_layer_lem (suc w) t (omega arith)) (
    ap₂ (λ n xs. take n (xs ++ replicate (suc w) 0)) (sym (length-emissions layers)) h.emissions_eq
        ∙ take-append (emissions layers) (replicate (suc w) 0),
    All-append IsPending t.transitions (pending ∷ []) h.waits (refl, tt),
  )
  grow-GrowsBlank width (solved s) layers h = absurd h

  -- What a push gives of it: one more layer, with its candidates in their places.
  abbrev pub LaysBlank :
      {X : Type 0}
      → Trip Edge Point
      → List (Candidate Edge Point)
      → Outcome X (LayerId × Trip Edge Point)
      → Type 0
  LaysBlank trip cs (ok (id, after)) =
      (after.candidates.layers ≡ trip.candidates.layers ++ (placed (length trip.origins) 0 cs ∷ []))
      × StateBlank after.state after.candidates.layers
  LaysBlank trip cs (err r) = Unit
  LaysBlank trip cs panic = Unit

  abbrev widths_of : Trip Edge Point → List ℕ
  widths_of trip = map length trip.candidates.layers

  pub push_layer-LaysBlank :
      (origin : Origin Point) (cs : List (Candidate Edge Point)) (trip : Trip Edge Point)
      → IsAligned trip
      → StateBlank trip.state trip.candidates.layers
      → length cs < u32_mod
      → length trip.origins < u32_mod
      → LaysBlank trip cs (push_layer origin cs trip)
  unfolding push_layer land
  push_layer-LaysBlank origin cs trip a blank word small =
      of_grown (grow (as_u32 (length cs)) trip.state)
        (subst (λ n. GrowsTo n trip.candidates.layers (grow (as_u32 (length cs)) trip.state))
          (as_u32_of_lt (length cs) word)
          (grow-GrowsTo (as_u32 (length cs)) trip.state trip.candidates.layers
            (omega (arith, as_u32_of_lt (length cs) word)) (omega (arith, a.paired)) a.mirrored))
        (grow-GrowsBlank (as_u32 (length cs)) trip.state trip.candidates.layers blank)
    where
      of_grown :
          (g : Outcome (TrellisError × TripState) (Trellis × LayerId))
          → GrowsTo (length cs) trip.candidates.layers g
          → GrowsBlank trip.candidates.layers g
          → LaysBlank trip cs (land origin cs trip g)
      of_grown panic h k = tt
      of_grown (err r) h k = tt
      of_grown (ok (t, l)) (valid, widths_eq, place) (front, waits) =
          let stamped = stamp l 0 cs in
          let weights = map emission_weight stamped in
          let size : length weights ≡ length cs =
            length-map emission_weight stamped ∙ length-stamp l 0 cs in
          let l_eq : l ≡ length (widths_of trip) =
            place ∙ sym (length-map length trip.candidates.layers) in
          let at : get_elem? t.widths l ≡ some (length weights) =
            ap₂ get_elem? widths_eq l_eq
            ∙ get_elem?-append (widths_of trip) (length cs) []
            ∙ ap some (sym size) in
          let (nodes, filled, nodes_eq) =
            fill_nodes_lem l weights t valid at (emissions_small stamped) in
          let taken : take l t.widths ≡ (widths_of trip) =
            ap₂ take l_eq widths_eq ∙ take-append (widths_of trip) (length cs ∷ []) in
          let whole : suc l ≡ length t.widths =
            omega
              (arith, l_eq, ap length widths_eq, length-append (widths_of trip) (length cs ∷ [])) in
          let rest : drop (sum (take (suc l) t.widths)) t.nodes ≡ [] =
            ap (λ n. drop n t.nodes)
              (ap (λ k. sum (take k t.widths)) whole
                ∙ ap sum (take_all t.widths)
                ∙ sym valid.node_count)
            ∙ drop_all t.nodes in
          rw (filled, land, LaysBlank)
            (
              ap (λ x. trip.candidates.layers ++ (x ∷ []))
                  (stamp-placed l 0 cs (omega arith) ∙ ap (λ k. placed k 0 cs) (place ∙ a.paired)),
              record {
                emissions_eq =
                    nodes_eq
                    ∙ ap₂ (λ x y. take (sum x) t.nodes ++ (weights ++ y)) taken rest
                    ∙ ap₂ (λ x y. x ++ y) front (append-nil weights)
                    ∙ sym (emissions-append trip.candidates.layers stamped);
                waits = waits;
              },
            )
