-- ===== src/Solver/Convergence.antt =====
-- libs/routers_trellis/src/solver/viterbi.rs: `converged_layer` and `convergence`. The standard library's
-- `sort_unstable` and `dedup` are written out on numbers.
use mathlib.Core.List.{reverse}
use routers.Common.{
  ℕ, suc, List, [], ◌∷◌, Option, none, some, Bool, true, false, ◌&&◌, length, if◌then◌else◌, ltb,
  leb, ◌==◌, as_u32, Range, slice,
}
use routers.Common.Outcome.{Outcome, ok, err, panic, ◌>>=◌, ◌>>◌, or_panic, fail_if}
use routers.Trellis.Types.{LayerId, NodeId, SolveError, unreachable, inf_w}
use routers.Trellis.Graph.{Trellis}
use routers.Solver.Forward.{Boundary}
use routers.Solver.Viterbi.{predecessor, tables}

-- The nodes whose cost is below the infinity, from an index on.
unfoldable pub live_nodes : ℕ → List ℕ → List NodeId
live_nodes i [] = []
live_nodes i (cost ∷ costs) =
    let rest = live_nodes (suc i) costs in if ltb cost inf_w then as_u32 i ∷ rest else rest

-- `filter_map` over the frontier.
unfoldable pub predecessors : Boundary → List ℕ → List NodeId → Outcome SolveError (List NodeId)
predecessors b dist [] = ok []
predecessors b dist (node ∷ nodes) =
    let rest = predecessors b dist nodes in
    elim (predecessor b dist node) [
      | ok p ↦ rest >>= λ ps. ok (p ∷ ps)
      | err _ ↦ rest
      | panic ↦ panic
    ]

unfoldable pub insert : ℕ → List ℕ → List ℕ
insert n [] = n ∷ []
insert n (x ∷ xs) = let rest = insert n xs in if leb n x then n ∷ x ∷ xs else x ∷ rest

-- `sort_unstable`
unfoldable pub sort : List ℕ → List ℕ
unfolding insert
sort [] = []
sort (x ∷ xs) = insert x (sort xs)

unfoldable pub dedup_from : ℕ → List ℕ → List ℕ
dedup_from x [] = x ∷ []
dedup_from x (y ∷ ys) = elim (x == y) [ true ↦ dedup_from x ys | false ↦ x ∷ dedup_from y ys ]

unfoldable pub dedup : List ℕ → List ℕ
unfolding dedup_from
dedup [] = []
dedup (x ∷ xs) = dedup_from x xs

-- The loop over the reversed boundaries, which returns at the first frontier of one node.
unfoldable pub sweep : List Boundary → List ℕ → List NodeId → Outcome SolveError (Option LayerId)
unfolding predecessors sort dedup
sweep [] dist frontier = ok none
sweep (b ∷ bs) dist frontier = predecessors b dist frontier >>= λ ps.
    elim (length (dedup (sort ps)) == 1) [
      | true ↦ ok (some b.id)
      | false ↦ sweep bs dist (dedup (sort ps))
    ]

unfoldable pub converged_layer :
    Range → List Boundary → List ℕ → Outcome SolveError (Option LayerId)
unfolding live_nodes sweep
converged_layer last bs dist = or_panic (slice dist last) >>= λ costs.
    elim (length (live_nodes 0 costs) == 1) [
      | true ↦ ok (some (as_u32 (length bs)))
      | false ↦ sweep (reverse bs) dist (live_nodes 0 costs)
    ]

-- `iter().all(|&cost| cost >= INF_W)`
abbrev pub all_infinite : List ℕ → Bool
all_infinite [] = true
all_infinite (cost ∷ costs) = leb inf_w cost && all_infinite costs

unfoldable pub convergence : Trellis → Outcome SolveError (Option LayerId)
unfolding converged_layer
convergence t = do
  (bs, last, dist) ← tables t
  costs ← or_panic (slice dist last)
  fail_if (all_infinite costs) unreachable
  converged_layer last bs dist
