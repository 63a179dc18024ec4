-- ===== src/Tests/Solving.antt =====
-- The theorems of trellises and of the solver at the branching trellis.
use routers.Common.{
  ℕ, ◌+◌, as_u32, List, [], ◌∷◌, ◌++◌, ◌≡◌, ◌≤◌, refl, some, arith, get_elem?, if◌then◌else◌, ltb,
}
use mathlib.Core.List.{reverse}
use routers.Common.Outcome.{ok, err}
use routers.Trellis.Types.{NodeId, LayerId, pending, resolved, inf_w, not_resolved}
use routers.Trellis.Graph.{
  Trellis, new, first_pending, fully_resolved, position_from, pending_between,
}
use routers.Trellis.Edit.{set_edge, partition}
use routers.Trellis.Valid.{IsValid}
use routers.Common.{◌<◌, ◌≢◌, ◌⊎◌, ◌-◌, take, drop}
use routers.Trellis.Graph.{sum}
use routers.Trellis.Effects.{partition_lem}
use routers.Trellis.Cost.{edge_weight}
use routers.Trellis.Valid.Written.{edge_weight-set_edge}
use routers.Trellis.Valid.Reachable.{Built, created, linked, Built-IsValid}
use routers.Solver.Forward.{next_row, forward_pass, relax, relax_row, enter, add_u32}
use routers.Solver.Viterbi.{boundaries, min_pair, numbered, trace_back, solve}
use routers.Solver.Relax.{IsLeast, next_row-IsLeast}
use routers.Solver.Argmin.{IsMinimum, min_pair-IsMinimum}
use routers.Solver.Stages.{
  Stage, AreStages, Reaches, start, step, row, table, flat_nodes, row-le-Reaches,
}
use routers.Solver.Flat.{stage_boundaries, forward_pass-table}
use routers.Solver.Backtrack.{trace_back-Reaches}
use routers.Solver.Pending.{boundaries-pending}
use routers.Solver.Correct.{Answers, solve-Answers}
use routers.Common.Outcome.{Outcome}
use routers.Trellis.Types.{SolveError, FoundPath}
use routers.Solver.Brute.{brute_solve}
use routers.Solver.Exhaustive.{brute_solve-Answers, SameAnswer, solve-brute_solve}
use routers.Solver.Convergence.{convergence}
use routers.Solver.LivePaths.{ConvergenceAnswer}
use routers.Solver.Converges.{convergence-ConvergenceAnswer}
use routers.Tests.Trellises.{branching}

pub branching-IsValid : IsValid branching
branching-IsValid = record {
  has_layer = omega arith;
  widths_ok =
      ((omega arith, omega arith), ((omega arith, omega arith), ((omega arith, omega arith), tt)));
  node_count = refl;
  nodes_ok = (omega arith, (omega arith, (omega arith, (omega arith, tt))));
  shape =
      ((refl, (omega arith, (omega arith, tt))), ((refl, (omega arith, (omega arith, tt))), tt));
}

solve-Answers_example : Answers branching (solve branching)
solve-Answers_example = solve-Answers branching branching-IsValid (omega arith)

-- Two layers, one edge written.
abbrev pair : Trellis
pair = record { widths = 1 ∷ 2 ∷ []; nodes = 0 ∷ 0 ∷ 0 ∷ []; transitions = pending ∷ [] }

abbrev linked_pair : Trellis
linked_pair = record {
  widths = 1 ∷ 2 ∷ [];
  nodes = 0 ∷ 0 ∷ 0 ∷ [];
  transitions = resolved (1073741824 ∷ 3 ∷ []) ∷ [];
}

Built-pair : Built linked_pair
unfolding new set_edge position_from pending_between as_u32
Built-pair =
    linked pair 0 0 1 3 (created (1 ∷ 2 ∷ []) (omega arith, (omega arith, tt)) (omega arith) refl)
      refl

Built-IsValid_example : IsValid linked_pair
Built-IsValid_example = Built-IsValid Built-pair

pair-IsValid : IsValid pair
pair-IsValid = record {
  has_layer = omega arith;
  widths_ok = ((omega arith, omega arith), ((omega arith, omega arith), tt));
  node_count = refl;
  nodes_ok = (omega arith, (omega arith, (omega arith, tt)));
  shape = (tt, tt);
}

boundaries-pending_example :
    (l : LayerId) × (first_pending pair ≡ some l) × (boundaries pair ≡ err (not_resolved l))
unfolding fully_resolved
boundaries-pending_example = boundaries-pending pair pair-IsValid (omega arith) refl

next_row_example :
    (d : ℕ) × (get_elem? (next_row (2 ∷ 9 ∷ []) (5 ∷ 7 ∷ []) 1 (4 ∷ [])) 0
      ≡ some (if ltb d inf_w then d + 4 else d))
    × IsLeast 1 (2 ∷ 9 ∷ []) (5 ∷ 7 ∷ []) 0 inf_w d
next_row_example =
    next_row-IsLeast (2 ∷ 9 ∷ []) (5 ∷ 7 ∷ []) 1 (4 ∷ []) 0 refl (omega arith)
      (omega arith, (omega arith, tt)) (omega arith) refl

min_pair_example :
    (m : ℕ) × (k : NodeId) × (min_pair (numbered 0 (5 ∷ 3 ∷ 3 ∷ [])) ≡ some (m, k))
    × IsMinimum 0 (5 ∷ 3 ∷ 3 ∷ []) m k
min_pair_example = min_pair-IsMinimum 5 (3 ∷ 3 ∷ []) (omega arith)

-- The stages of the branching trellis below its last layer.
abbrev stages : List Stage
stages = record { weights = 5 ∷ 1 ∷ []; nodes = 0 ∷ 2 ∷ [] } ∷ []

stages-AreStages : AreStages (0 ∷ []) stages
stages-AreStages = (
  record {
    wide = omega arith;
    word = omega arith;
    nodes_ok = (omega arith, (omega arith, tt));
    shape = refl;
    weights_ok = (omega arith, (omega arith, tt));
  },
  record { wide = omega arith; word = omega arith; nodes_ok = (omega arith, tt) },
)

forward_pass_example :
    forward_pass (stage_boundaries (0 ∷ []) stages) (flat_nodes (0 ∷ []) stages ++ 6 ∷ [])
    ≡ some (table (0 ∷ []) stages ++ 6 ∷ [])
forward_pass_example = forward_pass-table (0 ∷ []) stages (6 ∷ []) stages-AreStages

row_at : get_elem? (row (0 ∷ []) stages) 1 ≡ some 3
unfolding row next_row relax relax_row enter add_u32
row_at = refl

trace_back_example :
    (p : List NodeId) × (trace_back
        (reverse (stage_boundaries (0 ∷ []) stages))
        (table (0 ∷ []) stages ++ [])
        1
      ≡ ok p)
    × Reaches (0 ∷ []) stages (1 ∷ p) 3
trace_back_example = trace_back-Reaches (0 ∷ []) stages 1 3 [] stages-AreStages row_at (omega arith)

row-le-Reaches_example : 3 ≤ 3
row-le-Reaches_example =
    row-le-Reaches (0 ∷ []) 3 stages-AreStages (step (start {j = 0} {w = 0} refl) refl refl) row_at
      (omega arith)

edge_weight-set_edge_example :
    (u : Trellis) × (set_edge 0 0 1 9 branching ≡ ok u)
    × (edge_weight u 0 0 1 ≡ some 9)
    × ((f g : NodeId)
        → f < 1
        → g < 2
        → (f ≢ 0) ⊎ (g ≢ 1)
        → edge_weight u 0 f g ≡ edge_weight branching 0 f g)
edge_weight-set_edge_example =
    edge_weight-set_edge 0 0 1 9 1 2 branching branching-IsValid (omega arith) refl refl
      (omega arith) (omega arith)

partition_lem_example :
    (u : Trellis) × (partition 1 3 branching ≡ ok u)
    × (u.widths ≡ take 2 (drop 1 branching.widths))
    × (u.nodes
        ≡ take
            (sum (take 3 branching.widths) - sum (take 1 branching.widths))
            (drop (sum (take 1 branching.widths)) branching.nodes))
    × (u.transitions ≡ take 1 (drop 1 branching.transitions))
partition_lem_example =
    partition_lem 1 3 branching branching-IsValid (omega arith) (omega arith) (omega arith)

brute_example :
    (r : Outcome SolveError FoundPath) × (brute_solve 2 branching ≡ some r) × Answers branching r
brute_example = brute_solve-Answers branching branching-IsValid (omega arith) 2 (omega arith)

agree_example :
    (r : Outcome SolveError FoundPath) × (brute_solve 2 branching ≡ some r)
    × SameAnswer (solve branching) r
agree_example = solve-brute_solve branching 2 branching-IsValid (omega arith) (omega arith)

convergence_example : ConvergenceAnswer branching (convergence branching)
convergence_example = convergence-ConvergenceAnswer branching branching-IsValid (omega arith)
