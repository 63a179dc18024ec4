-- ===== src/Trip/Solved.antt =====
-- libs/routers_trellis/src/solved.rs: a trellis with the path that a solver found through it.
use routers.Common.{ℕ}
use routers.Common.Outcome.{Outcome, ok, err, panic}
use routers.Trellis.Types.{LayerId, TrellisError, SolveError, FoundPath}
use routers.Trellis.Graph.{Trellis}
use routers.Trellis.Edit.{add_layer}

pub record Solved : Type 0 where
  pub trellis : Trellis
  pub path : FoundPath

-- A rejected width hands the value back with the error.
unfoldable pub append : ℕ → Solved → Outcome (Solved × TrellisError) (Trellis × LayerId)
append width s = elim (add_layer width s.trellis) [
  | ok grown ↦ ok grown
  | err e ↦ err (s, e)
  | panic ↦ panic
]

abbrev pub reopen : Solved → Trellis
reopen s = s.trellis

-- `Trellis::solve` with the method of any solver; a failed solve hands the trellis back.
unfoldable pub solve_with :
    (Trellis → Outcome SolveError FoundPath) → Trellis → Outcome (Trellis × SolveError) Solved
solve_with solver t = elim (solver t) [
  | ok path ↦ ok (record { trellis = t; path = path })
  | err e ↦ err (t, e)
  | panic ↦ panic
]
