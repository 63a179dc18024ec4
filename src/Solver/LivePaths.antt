-- ===== src/Solver/LivePaths.antt =====
-- The live paths of a trellis, and what `convergence` of libs/routers_trellis/src/solver/viterbi.rs promises
-- of them.
use mathlib.Core.List.{reverse}
use routers.Common.{
  ℕ, ◌<◌, ◌≡◌, ◌≢◌, List, [], ◌∷◌, ◌++◌, Option, none, some, get_elem?, Range, slice,
}
use routers.Common.Outcome.{Outcome, ok, err, panic}
use routers.Trellis.Types.{LayerId, NodeId, SolveError, FoundPath, inf_w}
use routers.Trellis.Graph.{Trellis, layers}
use routers.Solver.Forward.{Boundary}
use routers.Solver.Viterbi.{tables, trace_back, solve}

-- A cheapest path into a live node of the last layer, as backtracking gives it.
pub record IsLivePath (t : Trellis) (ns : List NodeId) : Type 0 where
  pub steps : List Boundary
  pub last : Range
  pub dist : List ℕ
  pub tables_eq : tables t ≡ ok (steps, last, dist)
  pub costs : List ℕ
  pub costs_eq : slice dist last ≡ some costs
  pub final : NodeId
  pub cost : ℕ
  pub cost_eq : get_elem? costs final ≡ some cost
  pub live : cost < inf_w
  pub back : List NodeId
  pub traced : trace_back (reverse steps) dist final ≡ ok back
  pub nodes_eq : ns ≡ reverse back ++ (final ∷ [])

-- All live paths share their node at a layer, or two of them differ there.
abbrev pub FusesAt : Trellis → ℕ → Type 0
FusesAt t l = (c : NodeId) × ((ns : List NodeId) → IsLivePath t ns → get_elem? ns l ≡ some c)

pub record SplitsAt (t : Trellis) (l : ℕ) : Type 0 where
  pub one : List NodeId
  pub other : List NodeId
  pub one_live : IsLivePath t one
  pub other_live : IsLivePath t other
  pub one_at : NodeId
  pub other_at : NodeId
  pub one_eq : get_elem? one l ≡ some one_at
  pub other_eq : get_elem? other l ≡ some other_at
  pub differ : one_at ≢ other_at

-- The latest layer at which the live paths fuse, or that there is none.
abbrev pub IsConvergence : Trellis → Option LayerId → Type 0
IsConvergence t none = (l : ℕ) → l < layers t → SplitsAt t l
IsConvergence t (some layer) =
    (layer < layers t) × FusesAt t layer × ((l : ℕ) → layer < l → l < layers t → SplitsAt t l)

-- The answer to `convergence`: an error where `solve` has it, and otherwise the convergence of the live paths.
abbrev pub ConvergenceAnswer : Trellis → Outcome SolveError (Option LayerId) → Type 0
ConvergenceAnswer t (ok r) = (path : FoundPath) × (solve t ≡ ok path) × IsConvergence t r
ConvergenceAnswer t (err e) = solve t ≡ err e
ConvergenceAnswer t panic = ⊥
