-- ===== src/Tests/Trellises.antt =====
-- The trellis of libs/routers_trellis/tests/trellis.rs, `picks_cheaper_branch_and_respects_missing_edges`.
use mathlib.Core.List.{zip}
use routers.Common.{[], ◌∷◌, ◌≡◌, refl, some, as_u32, saturating_add, slice}
use routers.Common.Outcome.{Outcome, ok, ◌>>=◌}
use routers.Trellis.Types.{TrellisError, resolved}
use routers.Trellis.Graph.{
  Trellis, new, position_from, pending_between, boundaries, range_from, ranges_from, layer_ranges,
  layer, node_range, node_weights, node_weight,
}
use routers.Trellis.Edit.{set_edge}
use routers.Trellis.Cost.{path_cost, hops, hop, edge_weight, node_cost}
use routers.Solver.Forward.{add_u32, relax_row, relax, enter, next_row, advance, forward_pass}
use routers.Solver.Viterbi.{
  solve, tables, boundary, collect, boundaries as resolved_boundaries, column_costs, numbered,
  min_from, min_pair, predecessor, trace_back, backtrack, last_range,
}

built : Outcome TrellisError Trellis
built = do
  t ← new (1 ∷ 2 ∷ 1 ∷ [])
  t ← set_edge 0 0 0 5 t
  t ← set_edge 0 0 1 1 t
  set_edge 1 1 0 7 t

abbrev pub branching : Trellis
branching = record {
  widths = 1 ∷ 2 ∷ 1 ∷ [];
  nodes = 0 ∷ 0 ∷ 0 ∷ 0 ∷ [];
  transitions = resolved (5 ∷ 1 ∷ []) ∷ resolved (1073741824 ∷ 7 ∷ []) ∷ [];
}

built-branching : built ≡ ok branching
unfolding built new set_edge position_from pending_between as_u32
built-branching = refl

solve-branching : solve branching ≡ ok (record { nodes = 0 ∷ 1 ∷ 0 ∷ []; cost = 8 })
unfolding solve tables boundary collect resolved_boundaries column_costs numbered min_from min_pair
    predecessor trace_back backtrack last_range add_u32 relax_row relax enter next_row advance
    forward_pass boundaries range_from ranges_from layer_ranges layer as_u32 saturating_add slice
    zip
solve-branching = refl

path_cost-branching : path_cost branching (0 ∷ 1 ∷ 0 ∷ []) ≡ some 8
unfolding path_cost hops hop edge_weight node_cost node_weight node_weights node_range layer_ranges
    ranges_from as_u32 saturating_add slice
path_cost-branching = refl
