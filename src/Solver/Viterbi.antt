-- ===== src/Solver/Viterbi.antt =====
-- libs/routers_trellis/src/solver/viterbi.rs: the resolved boundaries, backtracking and the
-- convergence point. A slice or an index out of range panics.
use mathlib.Core.List.{reverse, zip}
use routers.Common.{
  ℕ, suc, List, [], ◌∷◌, ◌++◌, Option, none, some, Bool, ◌&&◌, ◌||◌, drop, if◌then◌else◌, ltb, leb,
  ◌==◌, as_u32, saturating_add, Range, len, slice,
}
use routers.Common.Outcome.{Outcome, ok, err, panic, ◌>>=◌, ◌>>◌, or_panic, fail_if, ok_or}
use routers.Trellis.Types.{LayerId, NodeId, SolveError, FoundPath, inf_w}
use routers.Trellis.Graph.{Trellis, layer, layer_ranges, boundaries as boundary_ids}
use routers.Solver.Forward.{Boundary, forward_pass}

unfoldable pub boundary : Trellis → LayerId → Range → Range → Outcome SolveError Boundary
boundary t id cur next = elim (layer t id) [
  | none ↦ err (SolveError.not_resolved id)
  | some ws ↦ do
    nodes ← or_panic (slice t.nodes next)
    ok (record { id = id; cur = cur; next = next; weights = ws; node_weights = nodes })
]

-- `map(..).collect()`: the first error wins.
unfoldable pub collect :
    Trellis → List (LayerId × (Range × Range)) → Outcome SolveError (List Boundary)
collect t [] = ok []
collect t ((id, (cur, next)) ∷ rest) = do
  b ← boundary t id cur next
  bs ← collect t rest
  ok (b ∷ bs)

unfoldable pub boundaries : Trellis → Outcome SolveError (List Boundary)
boundaries t = collect t (zip (boundary_ids t) (zip (layer_ranges t) (drop 1 (layer_ranges t))))

-- `weights.iter().skip(chosen).step_by(width)` against the costs below: the sums of `predecessor`.
unfoldable pub column_costs : ℕ → List ℕ → List ℕ → List ℕ
column_costs width [] column = []
column_costs width (cost ∷ costs) [] = []
column_costs width (cost ∷ costs) (edge ∷ column) =
    saturating_add cost edge ∷ column_costs width costs (drop width (edge ∷ column))

-- `enumerate()` with the index as the node of a pair.
unfoldable pub numbered : ℕ → List ℕ → List (ℕ × NodeId)
numbered i [] = []
numbered i (cost ∷ costs) = (cost, as_u32 i) ∷ numbered (suc i) costs

-- The order of pairs.
abbrev pub pair_lt : ℕ × NodeId → ℕ × NodeId → Bool
pair_lt (a, i) (b, j) = ltb a b || (a == b && ltb i j)

-- `Iterator::min` keeps the first of equal items.
unfoldable pub min_from : ℕ × NodeId → List (ℕ × NodeId) → ℕ × NodeId
min_from best [] = best
min_from best (x ∷ xs) = min_from (if pair_lt x best then x else best) xs

unfoldable pub min_pair : List (ℕ × NodeId) → Option (ℕ × NodeId)
unfolding min_from
min_pair [] = none
min_pair (x ∷ xs) = some (min_from x xs)

-- `None` is `err tt`; a step of width 0 panics.
unfoldable pub predecessor : Boundary → List ℕ → NodeId → Outcome (Unit {0}) NodeId
predecessor b dist chosen = if len b.next == 0 then panic else do
  cur ← or_panic (slice dist b.cur)
  (_, node) ←
      ok_or (min_pair (numbered 0 (column_costs (len b.next) cur (drop chosen b.weights)))) tt
  ok node

-- The `scan` over the reversed boundaries, which stops at the first `None`.
unfoldable pub trace_back : List Boundary → List ℕ → NodeId → Outcome SolveError (List NodeId)
trace_back [] dist chosen = ok []
trace_back (b ∷ bs) dist chosen = elim (predecessor b dist chosen) [
  | ok p ↦ do rest ← trace_back bs dist p; ok (p ∷ rest)
  | err _ ↦ ok []
  | panic ↦ panic
]

unfoldable pub backtrack : Range → List Boundary → List ℕ → Outcome SolveError FoundPath
backtrack last bs dist = do
  final_costs ← or_panic (slice dist last)
  (best_cost, final_node) ← ok_or (min_pair (numbered 0 final_costs)) SolveError.unreachable
  fail_if (leb inf_w best_cost) SolveError.unreachable
  tail_to_head ← trace_back (reverse bs) dist final_node
  ok (record { nodes = reverse tail_to_head ++ (final_node ∷ []); cost = best_cost })

-- `last().unwrap_or(0..0)`
unfoldable pub last_range : List Range → Range
last_range [] = record { start = 0; stop = 0 }
last_range (r ∷ []) = r
last_range (r ∷ s ∷ rs) = last_range (s ∷ rs)

unfoldable pub tables : Trellis → Outcome SolveError (List Boundary × Range × List ℕ)
tables t = do
  bs ← boundaries t
  dist ← or_panic (forward_pass bs t.nodes)
  ok (bs, last_range (layer_ranges t), dist)

unfoldable pub solve : Trellis → Outcome SolveError FoundPath
solve t = do (bs, last, dist) ← tables t; backtrack last bs dist
