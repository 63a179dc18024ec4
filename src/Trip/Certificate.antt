-- ===== src/Trip/Certificate.antt =====
-- libs/routers_trellis/src/solved.rs: what a solved trellis certifies, for any solver that keeps the
-- contract of `Solve`.
use routers.Common.{◌<◌, ◌≡◌, refl, u32_mod, none}
use routers.Common.Outcome.{Outcome, ok, err, panic}
use routers.Trellis.Types.{SolveError, FoundPath}
use routers.Trellis.Graph.{Trellis, layers, first_pending}
use routers.Trellis.Valid.{IsValid}
use routers.Solver.Correct.{Answers, IsBest}
use routers.Trip.Solved.{Solved, solve_with}

-- A solver: its method, and that it keeps the contract on valid trellises.
pub record Solver : Type 0 where
  pub run : Trellis → Outcome SolveError FoundPath
  pub answers : (t : Trellis) → IsValid t → layers t < u32_mod → Answers t (run t)

-- The trellis is valid and resolved, and the path is a cheapest one through it.
pub record IsCertificate (s : Solved) : Type 0 where
  pub valid : IsValid s.trellis
  pub complete : first_pending s.trellis ≡ none
  pub best : IsBest s.trellis s.path

-- The outcome of a solve of `t`: a certificate of `t` itself, or `t` handed back with the error that the
-- contract names.
abbrev pub Certified : Trellis → Outcome (Trellis × SolveError) Solved → Type 0
Certified t (ok s) = (s.trellis ≡ t) × IsCertificate s
Certified t (err r) = (r.0 ≡ t) × Answers t (err r.1)
Certified t panic = ⊥

-- On a valid trellis of fewer than 2^32 layers, a solve with any solver that keeps the contract does not
-- panic: it gives a certificate of the same trellis, or hands the trellis back with an error that the
-- contract allows.
pub solve_with-Certified :
    (solver : Solver) (t : Trellis)
    → IsValid t
    → layers t < u32_mod
    → Certified t (solve_with solver.run t)
unfolding solve_with
solve_with-Certified solver t v small = of_answer (solver.run t) (solver.answers t v small)
  where
    of_answer :
        (r : Outcome SolveError FoundPath)
        → Answers t r
        → Certified t (elim r [
          | ok path ↦ ok (record { trellis = t; path = path })
          | err e ↦ err (t, e)
          | panic ↦ panic
        ])
    of_answer (ok p) h = (refl, record { valid = v; complete = h.0; best = h.1 })
    of_answer (err e) h = (refl, h)
    of_answer panic h = absurd h
