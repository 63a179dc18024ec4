-- ===== src/Trip/Aligned.antt =====
-- libs/routers_transition/src/matcher/trip.rs: the origins, the candidates and the trellis of a trip
-- speak of the same layers, whatever is pushed and cut.
use routers.Common.{
  ℕ, zero, suc, ◌<◌, ◌≡◌, refl, ap, ap₂, ◌∙◌, sym, List, [], ◌∷◌, ◌++◌, map, some, arith, min,
  length, get_elem?, u32_mod, as_u32, as_u32_of_lt, subst, length-append, length-map,
  get_elem?-append, le→ltb,
}
use routers.Common.Outcome.{Outcome, ok, err, panic, Safe}
use routers.Trellis.Types.{LayerId, TrellisError, max_weight}
use routers.Trellis.Graph.{Trellis}
use routers.Trellis.Edit.{check_nodes}
use routers.Trellis.Valid.{IsValid, add_layer-Safe, fill_nodes-Safe, new-Safe}
use routers.Trip.Store.{Candidate, restamp, relabel}
use routers.Trip.Phase.{TripState, empty, building, solved, grow}
use routers.Trip.State.{Origin, Trip, push_layer, land, stamp, emission_weight}
use routers.Trellis.Effects.{
  grown, new_lem, new_empty, add_layer_empty, add_layer_lem, fill_nodes_lem,
}
use routers.Trip.Effects.{append_lem, append_empty}

module _ {Edge Point : Type 0} where
  -- A trellis whose layers are as wide as the layers of candidates.
  pub record Mirrors (t : Trellis) (layers : List (List (Candidate Edge Point))) : Type 0 where
    pub valid : IsValid t
    pub widths_eq : t.widths ≡ map length layers

  -- The trellis of a state, if it has one, mirrors the candidates; a trip without one has no layers.
  abbrev pub StateMirrors : TripState → List (List (Candidate Edge Point)) → Type 0
  StateMirrors empty layers = layers ≡ []
  StateMirrors (building t) layers = Mirrors t layers
  StateMirrors (solved s) layers = Mirrors s.trellis layers

  pub record IsAligned (trip : Trip Edge Point) : Type 0 where
    pub paired : length trip.candidates.layers ≡ length trip.origins
    pub mirrored : StateMirrors trip.state trip.candidates.layers

  map_append :
      (xss yss : List (List (Candidate Edge Point)))
      → map length (xss ++ yss) ≡ map length xss ++ map length yss
  map_append [] yss = refl
  map_append (xs ∷ xss) yss = ap (λ ns. length xs ∷ ns) (map_append xss yss)

  pub length-stamp :
      (l i : ℕ) (cs : List (Candidate Edge Point)) → length (stamp l i cs) ≡ length cs
  unfolding stamp
  length-stamp l i [] = refl
  length-stamp l i (c ∷ cs) = ap suc (length-stamp l (suc i) cs)

  pub emissions_small :
      (cs : List (Candidate Edge Point)) → check_nodes (map emission_weight cs) ≡ ok tt
  emissions_small [] = refl
  emissions_small (c ∷ cs) =
      rw (le→ltb max_weight (min c.emission max_weight) (omega arith)) (emissions_small cs)

  pub widths-restamp :
      (i : ℕ) (layers : List (List (Candidate Edge Point)))
      → map length (restamp i layers) ≡ map length layers
  unfolding restamp
  widths-restamp i [] = refl
  widths-restamp i (cs ∷ rest) =
      ap₂ ◌∷◌ (length-map (relabel (as_u32 i)) cs) (widths-restamp (suc i) rest)

  -- What `grow` gives: a valid trellis with one more layer, or an error for a layer of no candidates.
  abbrev pub GrowsTo :
      ℕ
      → List (List (Candidate Edge Point))
      → Outcome (TrellisError × TripState) (Trellis × LayerId)
      → Type 0
  GrowsTo width layers (ok (t, l)) =
      IsValid t × (t.widths ≡ map length layers ++ (width ∷ [])) × (l ≡ length layers)
  GrowsTo width layers (err r) = width ≡ 0
  GrowsTo width layers panic = ⊥

  grown-GrowsTo :
      (width : ℕ) (t : Trellis) (layers : List (List (Candidate Edge Point)))
      → 0 < width
      → width < u32_mod
      → length layers < u32_mod
      → Mirrors t layers
      → GrowsTo width layers (ok (grown width t, as_u32 (length t.widths)))
  grown-GrowsTo width t layers some_node word small m =
      let count : length t.widths ≡ length layers =
        ap length m.widths_eq ∙ length-map length layers in
      (
        subst (Safe (λ (r : Trellis × LayerId). IsValid r.0)) (add_layer_lem width t some_node)
            (add_layer-Safe width t word m.valid),
        ap (λ ws. ws ++ (width ∷ [])) m.widths_eq,
        as_u32_of_lt (length t.widths) (omega (arith, count)) ∙ count,
      )

  pub grow-GrowsTo :
      (width : ℕ) (state : TripState) (layers : List (List (Candidate Edge Point)))
      → width < u32_mod
      → length layers < u32_mod
      → StateMirrors state layers
      → GrowsTo width layers (grow width state)
  grow-GrowsTo zero empty layers word small m = rw (new_empty, GrowsTo, grow) refl
  grow-GrowsTo zero (building t) layers word small m = rw (add_layer_empty t) refl
  grow-GrowsTo zero (solved s) layers word small m = rw (append_empty s) refl
  grow-GrowsTo (suc w) empty layers word small m =
      rw (new_lem (suc w) (omega arith), grow, GrowsTo)
        (
          subst (Safe IsValid) (new_lem (suc w) (omega arith))
              (new-Safe (suc w ∷ []) (word, tt) (omega arith)),
          ap (λ ls. map length ls ++ (suc w ∷ [])) (sym m),
          ap length (sym m),
        )
  grow-GrowsTo (suc w) (building t) layers word small m =
      rw (add_layer_lem (suc w) t (omega arith))
        (grown-GrowsTo (suc w) t layers (omega arith) word small m)
  grow-GrowsTo (suc w) (solved s) layers word small m =
      rw (append_lem (suc w) s (omega arith))
        (grown-GrowsTo (suc w) s.trellis layers (omega arith) word small m)

  -- What a push gives: an aligned trip with one more layer, or an error for a layer of no candidates.
  abbrev pub Pushed :
      Trip Edge Point
      → List (Candidate Edge Point)
      → Outcome (TrellisError × Trip Edge Point) (LayerId × Trip Edge Point)
      → Type 0
  Pushed trip cs (ok (id, after)) =
      IsAligned after
      × (id ≡ length trip.origins)
      × (length after.origins ≡ suc (length trip.origins))
  Pushed trip cs (err r) = cs ≡ []
  Pushed trip cs panic = ⊥

  -- On an aligned trip of fewer than 2^32 layers a push of fewer than 2^32 candidates does not panic.
  -- It fails only for a layer of no candidates; otherwise the trip is aligned, has one more layer, and
  -- the id of the new layer is the number of layers before.
  pub push_layer-Pushed :
      (origin : Origin Point) (cs : List (Candidate Edge Point)) (trip : Trip Edge Point)
      → IsAligned trip
      → length cs < u32_mod
      → length trip.origins < u32_mod
      → Pushed trip cs (push_layer origin cs trip)
  unfolding push_layer land
  push_layer-Pushed origin cs trip a word small = of_grown (grow (as_u32 (length cs)) trip.state) (
      subst (λ n. GrowsTo n trip.candidates.layers (grow (as_u32 (length cs)) trip.state))
        (as_u32_of_lt (length cs) word)
        (grow-GrowsTo (as_u32 (length cs)) trip.state trip.candidates.layers
          (omega (arith, as_u32_of_lt (length cs) word)) (omega (arith, a.paired)) a.mirrored))
    where
      nil_of_length : (xs : List (Candidate Edge Point)) → length xs ≡ 0 → xs ≡ []
      nil_of_length [] e = refl
      nil_of_length (x ∷ xs) e = absurd (omega arith)

      of_grown :
          (g : Outcome (TrellisError × TripState) (Trellis × LayerId))
          → GrowsTo (length cs) trip.candidates.layers g
          → Pushed trip cs (land origin cs trip g)
      of_grown panic h = absurd h
      of_grown (err r) h = nil_of_length cs h
      of_grown (ok (t, l)) (valid, widths_eq, place) =
          let stamped = stamp l 0 cs in
          let weights = map emission_weight stamped in
          let size : length weights ≡ length cs =
            length-map emission_weight stamped ∙ length-stamp l 0 cs in
          let at : get_elem? t.widths l ≡ some (length weights) =
            ap₂ get_elem? widths_eq (place ∙ sym (length-map length trip.candidates.layers))
            ∙ get_elem?-append (map length trip.candidates.layers) (length cs) []
            ∙ ap some (sym size) in
          let (nodes, filled, _) = fill_nodes_lem l weights t valid at (emissions_small stamped) in
          let valid' : IsValid (record t { nodes = nodes }) =
            subst (Safe IsValid) filled (fill_nodes-Safe l weights t valid) in
          rw (filled, land, Pushed)
            (
              record {
                paired = omega (
                  arith,
                  a.paired,
                  length-append trip.candidates.layers (stamped ∷ []),
                  length-append trip.origins (origin ∷ []),
                );
                mirrored = record {
                  valid = valid';
                  widths_eq =
                      widths_eq
                      ∙ ap (λ k. map length trip.candidates.layers ++ (k ∷ []))
                          (sym (length-stamp l 0 cs))
                      ∙ sym (map_append trip.candidates.layers (stamped ∷ []));
                };
              },
              place ∙ a.paired,
              omega (arith, length-append trip.origins (origin ∷ [])),
            )
