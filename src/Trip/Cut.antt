-- ===== src/Trip/Cut.antt =====
-- libs/routers_transition/src/matcher/trip.rs: `tail` keeps a trip aligned.
use routers.Common.{
  ℕ, zero, suc, ◌-◌, ◌≤◌, ◌<◌, ◌≡◌, refl, ap, ap₂, ◌∙◌, sym, List, [], ◌∷◌, map, some, arith,
  dec_le, length, drop, u32_mod, subst, length-map, length-drop, le→leb, ◌==◌, false,
}
use routers.Common.Outcome.{ok, Safe}
use routers.Trellis.Graph.{Trellis}
use routers.Trellis.Edit.{last}
use routers.Trellis.Valid.{IsValid, last-Safe}
use routers.Trip.Store.{Candidate, CandidateStore, store_tail, restamp}
use routers.Trip.Phase.{TripState, empty, building, solved, tail_state}
use routers.Trip.State.{Trip, tail, new_trip}
use routers.Trellis.Effects.{last_lem, not_le, positive}
use routers.Trip.Aligned.{Mirrors, StateMirrors, IsAligned, widths-restamp}

drop_all {ℓ} : {A : Type ℓ} (n : ℕ) (xs : List A) → length xs ≤ n → drop n xs ≡ []
drop_all zero [] h = refl
drop_all zero (x ∷ xs) h = absurd (omega arith)
drop_all (suc n) [] h = refl
drop_all (suc n) (x ∷ xs) h = drop_all n xs (omega arith)

left : (k m : ℕ) → m < k → (k - m == 0) ≡ false
left k m h = ground arith

module _ {Edge Point : Type 0} where
  map-drop :
      (n : ℕ) (layers : List (List (Candidate Edge Point)))
      → map length (drop n layers) ≡ drop n (map length layers)
  map-drop zero layers = refl
  map-drop (suc n) [] = refl
  map-drop (suc n) (l ∷ layers) = map-drop n layers

  length-restamp :
      (i : ℕ) (layers : List (List (Candidate Edge Point)))
      → length (restamp i layers) ≡ length layers
  unfolding restamp
  length-restamp i [] = refl
  length-restamp i (l ∷ layers) = ap suc (length-restamp (suc i) layers)

  store_tail_lem :
      (n : ℕ) (s : CandidateStore Edge Point)
      → n < length s.layers
      → store_tail n s ≡ record { layers = restamp 0 (drop (length s.layers - n) s.layers) }
  unfolding store_tail
  store_tail_lem n s h = rw (left (length s.layers) n h) refl

  -- The last layers of a mirrored trellis mirror the last candidates.
  cut-Mirrors :
      (n : ℕ) (t : Trellis) (layers : List (List (Candidate Edge Point)))
      → 0 < n
      → n < length layers
      → length layers < u32_mod
      → Mirrors t layers
      → (u : Trellis) × (last n t ≡ ok u) × Mirrors u (restamp 0 (drop (length layers - n) layers))
  cut-Mirrors n t layers some_layer proper small m =
      let count : length t.widths ≡ length layers =
        ap length m.widths_eq ∙ length-map length layers in
      let (u, found, widths_eq) =
        last_lem n t m.valid some_layer (omega (arith, count)) (omega (arith, count)) in
      let cut = length layers - n in
      (
        u,
        found,
        record {
          valid = subst (Safe IsValid) found (last-Safe n t (omega (arith, count)) m.valid);
          widths_eq =
              widths_eq
              ∙ ap₂ (λ k ws. drop (k - n) ws) count m.widths_eq
              ∙ sym (map-drop cut layers)
              ∙ sym (widths-restamp 0 (drop cut layers));
        },
      )

  cut-StateMirrors :
      (n : ℕ) (state : TripState) (layers : List (List (Candidate Edge Point)))
      → 0 < n
      → n < length layers
      → length layers < u32_mod
      → StateMirrors state layers
      → (after : TripState) × (tail_state n state ≡ some after)
        × StateMirrors after (restamp 0 (drop (length layers - n) layers))
  cut-StateMirrors n empty layers some_layer proper small m = absurd (omega (arith, ap length m))
  cut-StateMirrors n (building t) layers some_layer proper small m =
      let (u, found, mirrors) = cut-Mirrors n t layers some_layer proper small m in
      (building u, rw found refl, mirrors)
  cut-StateMirrors n (solved s) layers some_layer proper small m =
      let (u, found, mirrors) = cut-Mirrors n s.trellis layers some_layer proper small m in
      (building u, rw found refl, mirrors)

  -- On an aligned trip of fewer than 2^32 layers `tail` does not panic: it keeps the trip aligned and
  -- leaves the last `n` layers, or all of them if there are no more.
  pub tail-IsAligned :
      (n : ℕ) (trip : Trip Edge Point)
      → IsAligned trip
      → length trip.origins < u32_mod
      → (after : Trip Edge Point) × (tail n trip ≡ some after)
        × IsAligned after
        × (after.origins ≡ drop (length trip.origins - n) trip.origins)
  unfolding tail
  tail-IsAligned n trip a small = elim (dec_le (length trip.origins) n) [
    | yes few ↦ (
      trip,
      rw (le→leb (length trip.origins) n few) refl,
      a,
      ap (λ k. drop k trip.origins) (nothing (length trip.origins) n few),
    )
    | no many ↦ cut n (omega arith)
  ]
    where
      nothing : (k m : ℕ) → k ≤ m → 0 ≡ k - m
      nothing k m h = omega arith

      cut :
          (m : ℕ)
          → m < length trip.origins
          → (after : Trip Edge Point) × (tail m trip ≡ some after)
            × IsAligned after
            × (after.origins ≡ drop (length trip.origins - m) trip.origins)
      cut zero h = (
        new_trip,
        rw (not_le (length trip.origins) zero h) refl,
        record { paired = refl; mirrored = refl },
        sym (drop_all (length trip.origins - 0) trip.origins (omega arith)),
      )
      cut (suc m) h =
          let (state, found, mirrors) =
            cut-StateMirrors (suc m) trip.state trip.candidates.layers (omega arith)
              (omega (arith, a.paired)) (omega (arith, a.paired)) a.mirrored in
          (
            record {
              origins = drop (length trip.origins - suc m) trip.origins;
              candidates = record {
                layers =
                    restamp 0 (drop (length trip.candidates.layers - suc m) trip.candidates.layers);
              };
              state = state;
            },
            rw
                (
                  not_le (length trip.origins) (suc m) h,
                  positive (suc m) (omega arith),
                  found,
                  store_tail_lem (suc m) trip.candidates (omega (arith, a.paired)),
                )
                refl,
            record {
              paired = omega (
                arith,
                a.paired,
                length-restamp 0
                    (drop (length trip.candidates.layers - suc m) trip.candidates.layers),
                length-drop (length trip.candidates.layers - suc m) trip.candidates.layers,
                length-drop (length trip.origins - suc m) trip.origins,
              );
              mirrored = mirrors;
            },
            refl,
          )
