-- ===== src/Solver/Converges.antt =====
-- libs/routers_trellis/src/solver/viterbi.rs: `convergence` against `solve`.
use mathlib.Core.List.{Memᴰ, reverse}
use routers.Common.{
  ℕ, ◌+◌, ◌≤◌, ◌<◌, ◌≡◌, refl, ap, ◌∙◌, sym, subst, inl, inr, List, [], ◌∷◌, ◌++◌, some, true,
  false, arith, get_elem?, leb, le→leb, Bool-cases, dec_le, u32_mod, Range, slice,
}
use routers.Common.Outcome.{ok, err}
use routers.Trellis.Types.{LayerId, NodeId, not_resolved, unreachable, inf_w}
use routers.Trellis.Graph.{Trellis, layers, fully_resolved}
use routers.Trellis.Valid.{IsValid}
use routers.Solver.Forward.{Boundary}
use routers.Solver.Viterbi.{tables, trace_back, solve, backtrack}
use routers.Solver.Convergence.{live_nodes, converged_layer, all_infinite, convergence}
use routers.Solver.Living.{live_nodes_complete, all_infinite-true, all_infinite-false}
use routers.Solver.Viterbi.{boundaries, min_pair, numbered}
use routers.Solver.Stages.{Stage, row, table}
use routers.Solver.Flat.{cur_range, stage_boundaries}
use routers.Solver.View.{Shows, Shows-of_resolved}
use routers.Solver.Pending.{boundaries-pending}
use routers.Solver.Correct.{tables-stages, last-IsMinimum}
use routers.Solver.LivePaths.{ConvergenceAnswer}
use routers.Solver.Converged.{converged_layer-IsConvergence}
use routers.Solver.Ends.{slice-row, traced_full, row_small}

gt→leb : (a b : ℕ) → b < a → leb a b ≡ false
gt→leb a b h = ground arith

convergence_lem :
    (t : Trellis) (bs : List Boundary) (last : Range) (dist costs : List ℕ)
    → tables t ≡ ok (bs, last, dist)
    → slice dist last ≡ some costs
    → all_infinite costs ≡ false
    → convergence t ≡ converged_layer last bs dist
unfolding convergence
convergence_lem t bs last dist costs p q e = rw (convergence, p, q, e) refl

convergence_unreachable :
    (t : Trellis) (bs : List Boundary) (last : Range) (dist costs : List ℕ)
    → tables t ≡ ok (bs, last, dist)
    → slice dist last ≡ some costs
    → all_infinite costs ≡ true
    → convergence t ≡ err unreachable
unfolding convergence
convergence_unreachable t bs last dist costs p q e = rw (convergence, p, q, e) refl

solve_lem :
    (t : Trellis) (bs : List Boundary) (last : Range) (dist costs : List ℕ) (m : ℕ) (k : NodeId)
    (p : List NodeId)
    → tables t ≡ ok (bs, last, dist)
    → slice dist last ≡ some costs
    → min_pair (numbered 0 costs) ≡ some (m, k)
    → m < inf_w
    → trace_back (reverse bs) dist k ≡ ok p
    → solve t ≡ ok (record { nodes = reverse p ++ (k ∷ []); cost = m })
unfolding solve backtrack
solve_lem t bs last dist costs m k p a b c d e =
    rw (solve, a, backtrack, b, c, gt→leb inf_w m d, e) refl

solve_unreachable :
    (t : Trellis) (bs : List Boundary) (last : Range) (dist costs : List ℕ) (m : ℕ) (k : NodeId)
    → tables t ≡ ok (bs, last, dist)
    → slice dist last ≡ some costs
    → min_pair (numbered 0 costs) ≡ some (m, k)
    → inf_w ≤ m
    → solve t ≡ err unreachable
unfolding solve backtrack
solve_unreachable t bs last dist costs m k a b c d =
    rw (solve, a, backtrack, b, c, le→leb inf_w m d) refl

refused :
    (t : Trellis) (l : LayerId)
    → boundaries t ≡ err (not_resolved l)
    → (solve t ≡ err (not_resolved l)) × (convergence t ≡ err (not_resolved l))
unfolding solve tables convergence
refused t l e = (rw (solve, tables, e) refl, rw (convergence, tables, e) refl)

resolved_answer :
    (t : Trellis) (first : List ℕ) (ss : List Stage)
    → Shows t first ss
    → layers t < u32_mod
    → ConvergenceAnswer t (convergence t)
resolved_answer t first ss v small =
    let (m, k, pair_eq, q) = last-IsMinimum t first ss v small in
    let at : get_elem? (row first ss) k ≡ some m =
      ap (get_elem? (row first ss)) (omega arith) ∙ q.found in
    let tabled = tables-stages t first ss v small in
    let rowed = slice-row t first ss v small in
    elim (dec_le inf_w m) [
      | yes big ↦
          subst (ConvergenceAnswer t)
            (sym (
              convergence_unreachable t (stage_boundaries first ss) (cur_range first ss)
                (table first ss) (row first ss) tabled rowed
                (all_infinite-true (row first ss) (λ j c e. omega (arith, q.least j c e)))))
            (solve_unreachable t (stage_boundaries first ss) (cur_range first ss) (table first ss)
              (row first ss) m k tabled rowed pair_eq big)
      | no fin ↦
          let (p, full) = traced_full t first ss v small k m at (omega arith) in
          let k_in =
            subst (λ i. Memᴰ i (live_nodes 0 (row first ss))) (zero_plus k)
              (live_nodes_complete 0 (row first ss) k m (row_small t first ss v small) at
                (omega arith)) in
          let (r, found, converges) = converged_layer-IsConvergence t first ss v small k k_in in
          subst (ConvergenceAnswer t)
            (sym (
              convergence_lem t (stage_boundaries first ss) (cur_range first ss) (table first ss)
                (row first ss) tabled rowed (all_infinite-false (row first ss) k m at (omega arith))
              ∙ found))
            (
              record { nodes = reverse p ++ (k ∷ []); cost = m },
              solve_lem t (stage_boundaries first ss) (cur_range first ss) (table first ss)
                  (row first ss) m k p tabled rowed pair_eq (omega arith) full.0,
              converges,
            )
    ]
  where
    zero_plus : (i : ℕ) → 0 + i ≡ i
    zero_plus i = omega arith

-- On a valid trellis of fewer than 2^32 layers `convergence` does not panic, and fails exactly where `solve`
-- does, with the same error. Otherwise it gives the latest layer at which the cheapest paths into all live
-- nodes of the last layer, as backtracking gives them, share one node; or none if two of them differ at
-- every layer.
pub convergence-ConvergenceAnswer :
    (t : Trellis) → IsValid t → layers t < u32_mod → ConvergenceAnswer t (convergence t)
convergence-ConvergenceAnswer t v small = elim (Bool-cases (fully_resolved t)) [
  | inl done ↦
      let (first, ss, shown) = Shows-of_resolved t v done in resolved_answer t first ss shown small
  | inr waits ↦
      let (l, _, stopped) = boundaries-pending t v small waits in
      let (solved, converged) = refused t l stopped in
      subst (ConvergenceAnswer t) (sym converged) solved
]
