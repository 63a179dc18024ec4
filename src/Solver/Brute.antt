-- ===== src/Solver/Brute.antt =====
-- libs/routers_trellis/src/solver/brute.rs: every path is priced, in the order of a counter whose digits are
-- the nodes of the layers. The `loop` runs on fuel.
use routers.Common.{
  ℕ, zero, suc, ◌+◌, List, [], ◌∷◌, Option, none, some, Bool, true, false, replicate, if◌then◌else◌,
  ltb, leb, as_u32,
}
use routers.Common.Outcome.{Outcome, ok, err, panic}
use routers.Trellis.Types.{NodeId, SolveError, not_resolved, unreachable, FoundPath, inf_w}
use routers.Trellis.Graph.{Trellis, layers, first_pending}
use routers.Trellis.Cost.{path_cost}

-- What one round of the reversed loop does to its digit, after the digits below it.
abbrev pub digit : ℕ → NodeId → Bool × List NodeId → Bool × List NodeId
digit width node (false, below) = (false, node ∷ below)
digit width node (true, below) =
    if ltb (as_u32 (node + 1)) width then (false, as_u32 (node + 1) ∷ below) else (true, 0 ∷ below)

-- The next combination, with the carry that is left.
unfoldable pub increment : List ℕ → List NodeId → Bool × List NodeId
increment [] path = (true, [])
increment (width ∷ widths) [] = (true, [])
increment (width ∷ widths) (node ∷ path) = digit width node (increment widths path)

-- How the search ends.
pub data Search : Type 0 where
  finished : (best_cost : ℕ) (best_nodes : List NodeId) → Search
  panicked : Search
  out_of_fuel : Search

unfoldable pub search : ℕ → Trellis → ℕ → List NodeId → List NodeId → Search
unfolding increment
search zero t best_cost best_nodes path = out_of_fuel
search (suc fuel) t best_cost best_nodes path = elim (path_cost t path) [
  | none ↦ panicked
  | some cost ↦
      let better = ltb cost best_cost in
      let best_cost' = if better then cost else best_cost in
      let best_nodes' = if better then path else best_nodes in
      let (carry, next) = increment t.widths path in
      elim carry [
        | true ↦ finished best_cost' best_nodes'
        | false ↦ search fuel t best_cost' best_nodes' next
      ]
]

-- `none` when the fuel does not last.
unfoldable pub brute_solve : ℕ → Trellis → Option (Outcome SolveError FoundPath)
unfolding search
brute_solve fuel t = elim (first_pending t) [
  | some layer ↦ some (err (not_resolved layer))
  | none ↦ elim (search fuel t inf_w [] (replicate (layers t) 0)) [
    | out_of_fuel ↦ none
    | panicked ↦ some panic
    | finished best_cost best_nodes ↦ some (
        if leb inf_w best_cost
        then err unreachable
        else ok (record { nodes = best_nodes; cost = best_cost }))
  ]
]
