-- ===== src/Solver/Converged.antt =====
-- libs/routers_trellis/src/solver/viterbi.rs: what `convergence` answers.
use mathlib.Core.List.{Memᴰ, reverse}
use routers.Common.{
  ℕ, suc, ◌+◌, ◌<◌, ◌≡◌, ◌≢◌, ap, ◌∙◌, inl, inr, List, [], ◌∷◌, ◌++◌, Option, none, some, true,
  false, arith, length, get_elem?, ◌==◌, Bool-cases, dec_lt, u32_mod, as_u32, as_u32_of_lt,
}
use routers.Common.Outcome.{ok, ◌>>=◌, or_panic}
use routers.Trellis.Types.{LayerId, NodeId}
use routers.Trellis.Graph.{Trellis, layers}
use routers.Solver.Convergence.{live_nodes, sweep, converged_layer}
use routers.Solver.Narrow.{all_one, two_of_strict}
use routers.Solver.Traces.{AreTraced}
use routers.Solver.Sweep.{Fuses, Splits, IsLatest, sweep-IsLatest}
use routers.Solver.Living.{live_nodes_sound, live_nodes-IsStrict}
use routers.Solver.Stages.{Stage, row, table, top}
use routers.Solver.Flat.{cur_range, stage_boundaries}
use routers.Solver.View.{Shows}
use routers.Solver.Correct.{layers-stages}
use routers.Solver.LivePaths.{FusesAt, SplitsAt, IsConvergence}
use routers.Solver.Ends.{
  length-stage_boundaries, length-steps, steps-AreNumbered, slice-row, traced_full, row_small,
  to_live_path, from_live_path, at_layer, at_last,
}

module _ (t : Trellis) (first : List ℕ) (ss : List Stage) (v : Shows t first ss)
    (small : layers t < u32_mod) where
  FusesAt-of_sweep :
      (l : ℕ)
      → l < length ss
      → Fuses (table first ss) (reverse (stage_boundaries first ss)) (live_nodes 0 (row first ss)) l
      → FusesAt t l
  FusesAt-of_sweep l h (c, all) = (
    c,
    λ ns live.
        let e = (from_live_path t first ss v small) ns live in
        ap (λ xs. get_elem? xs l) e.nodes_eq
        ∙ (at_layer t first ss v small) e.final e.back l e.traced.1 h
        ∙ all e.final e.back e.final_in e.traced,
  )

  SplitsAt-of_sweep :
      (l : ℕ)
      → l < length ss
      → Splits
          (table first ss)
          (reverse (stage_boundaries first ss))
          (live_nodes 0 (row first ss))
          l
      → SplitsAt t l
  SplitsAt-of_sweep l h s = record {
    one = reverse s.one_path ++ (s.one ∷ []);
    other = reverse s.other_path ++ (s.other ∷ []);
    one_live = (to_live_path t first ss v small) s.one s.one_path s.one_in s.one_traced;
    other_live = (to_live_path t first ss v small) s.other s.other_path s.other_in s.other_traced;
    one_at = s.one_at;
    other_at = s.other_at;
    one_eq = (at_layer t first ss v small) s.one s.one_path l s.one_traced.1 h ∙ s.one_eq;
    other_eq = (at_layer t first ss v small) s.other s.other_path l s.other_traced.1 h ∙ s.other_eq;
    differ = s.differ;
  }

  alive_traced :
      AreTraced (table first ss) (reverse (stage_boundaries first ss)) (live_nodes 0 (row first ss))
  alive_traced n n_in =
      let (k, n_eq, c, at, live) =
        live_nodes_sound 0 (row first ss) n (row_small t first ss v small) n_in in
      (traced_full t first ss v small) n c (ap (get_elem? (row first ss)) (n_eq ∙ zero_plus k) ∙ at)
        live
    where
      zero_plus : (i : ℕ) → 0 + i ≡ i
      zero_plus i = omega arith

  SplitsAt-last :
      (x y l : ℕ)
      → Memᴰ x (live_nodes 0 (row first ss))
      → Memᴰ y (live_nodes 0 (row first ss))
      → x ≢ y
      → l ≡ length ss
      → SplitsAt t l
  SplitsAt-last x y l x_in y_in ne e =
      let (p, p_full) = alive_traced x x_in in
      let (q, q_full) = alive_traced y y_in in
      record {
        one = reverse p ++ (x ∷ []);
        other = reverse q ++ (y ∷ []);
        one_live = (to_live_path t first ss v small) x p x_in p_full;
        other_live = (to_live_path t first ss v small) y q y_in q_full;
        one_at = x;
        other_at = y;
        one_eq = (at_last t first ss v small) x p l p_full.1 e;
        other_eq = (at_last t first ss v small) y q l q_full.1 e;
        differ = ne;
      }

  converged_one :
      (length (live_nodes 0 (row first ss)) == 1) ≡ true
      → converged_layer (cur_range first ss) (stage_boundaries first ss) (table first ss)
        ≡ ok (some (as_u32 (length (stage_boundaries first ss))))
  unfolding converged_layer
  converged_one e =
      ap
        (λ o. or_panic o >>= λ costs. elim (length (live_nodes 0 costs) == 1) [
          | true ↦ ok (some (as_u32 (length (stage_boundaries first ss))))
          | false ↦
              sweep (reverse (stage_boundaries first ss)) (table first ss) (live_nodes 0 costs)
        ])
        (slice-row t first ss v small)
      ∙ ap
          (λ b. elim b [
            | true ↦ ok (some (as_u32 (length (stage_boundaries first ss))))
            | false ↦
                sweep (reverse (stage_boundaries first ss)) (table first ss)
                  (live_nodes 0 (row first ss))
          ])
          e

  converged_more :
      (length (live_nodes 0 (row first ss)) == 1) ≡ false
      → converged_layer (cur_range first ss) (stage_boundaries first ss) (table first ss)
        ≡ sweep (reverse (stage_boundaries first ss)) (table first ss) (live_nodes 0 (row first ss))
  unfolding converged_layer
  converged_more e =
      ap
        (λ o. or_panic o >>= λ costs. elim (length (live_nodes 0 costs) == 1) [
          | true ↦ ok (some (as_u32 (length (stage_boundaries first ss))))
          | false ↦
              sweep (reverse (stage_boundaries first ss)) (table first ss) (live_nodes 0 costs)
        ])
        (slice-row t first ss v small)
      ∙ ap
          (λ b. elim b [
            | true ↦ ok (some (as_u32 (length (stage_boundaries first ss))))
            | false ↦
                sweep (reverse (stage_boundaries first ss)) (table first ss)
                  (live_nodes 0 (row first ss))
          ])
          e

  layers_count : layers t ≡ suc (length ss)
  layers_count = layers-stages t first ss v small

  IsConvergence-of_sweep :
      (r : Option LayerId)
      → ((l : ℕ) → l ≡ length ss → SplitsAt t l)
      → IsLatest
          (table first ss)
          (reverse (stage_boundaries first ss))
          (live_nodes 0 (row first ss))
          r
      → IsConvergence t r
  IsConvergence-of_sweep none top latest = λ l h. elim (dec_lt l (length ss)) [
    | yes low ↦ SplitsAt-of_sweep l low (latest l (omega (arith, length-steps first ss)))
    | no high ↦ top l (omega (arith, layers_count))
  ]
  IsConvergence-of_sweep (some layer) top (inside, fuses, above) = (
    omega (arith, layers_count, length-steps first ss),
    FusesAt-of_sweep layer (omega (arith, length-steps first ss)) fuses,
    λ l after h. elim (dec_lt l (length ss)) [
      | yes low ↦ SplitsAt-of_sweep l low (above l after (omega (arith, length-steps first ss)))
      | no high ↦ top l (omega (arith, layers_count))
    ],
  )

  -- With a live node, the layer that is found is the latest at which the live paths fuse.
  pub converged_layer-IsConvergence :
      (k : NodeId)
      → Memᴰ k (live_nodes 0 (row first ss))
      → (r : Option LayerId) × (converged_layer
            (cur_range first ss)
            (stage_boundaries first ss)
            (table first ss)
          ≡ ok r)
        × IsConvergence t r
  converged_layer-IsConvergence k k_in =
      elim (Bool-cases (length (live_nodes 0 (row first ss)) == 1)) [
        | inl single ↦
            let (c, all) = all_one (live_nodes 0 (row first ss)) single in
            let place : as_u32 (length (stage_boundaries first ss)) ≡ length ss =
              as_u32_of_lt (length (stage_boundaries first ss))
                (omega (arith, length-stage_boundaries first ss, layers_count))
              ∙ length-stage_boundaries first ss in
            (
              some (as_u32 (length (stage_boundaries first ss))),
              converged_one single,
              (
                omega (arith, place, layers_count),
                (
                  c,
                  λ ns live.
                      let e = (from_live_path t first ss v small) ns live in
                      ap (λ xs. get_elem? xs (as_u32 (length (stage_boundaries first ss))))
                        e.nodes_eq
                      ∙ (at_last t first ss v small) e.final e.back
                          (as_u32 (length (stage_boundaries first ss))) e.traced.1 place
                      ∙ ap some (all e.final e.final_in),
                ),
                λ l after h. absurd (omega (arith, place, layers_count)),
              ),
            )
        | inr more ↦
            let (x, y, x_in, y_in, ne) =
              two_of_strict (live_nodes 0 (row first ss)) k
                (live_nodes-IsStrict 0 (row first ss) (row_small t first ss v small)) more k_in in
            let (r, found, latest) =
              sweep-IsLatest (table first ss) (reverse (stage_boundaries first ss))
                (live_nodes 0 (row first ss)) k
                (steps-AreNumbered first ss (omega (arith, layers_count))) alive_traced k_in in
            (
              r,
              converged_more more ∙ found,
              IsConvergence-of_sweep r (λ l e. SplitsAt-last x y l x_in y_in ne e) latest,
            )
      ]
