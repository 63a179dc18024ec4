-- ===== src/Matcher/Again.antt =====
-- libs/routers_transition/src/matcher/entity.rs: a trip that is solved stays as it is when it is solved again.
use routers.Common.{◌<◌, ◌≡◌, refl, ap₂, ◌∙◌, sym, subst, length, u32_mod}
use routers.Common.Outcome.{ok}
use routers.Trellis.Types.{FoundPath}
use routers.Trip.Phase.{solved}
use routers.Trip.Solved.{Solved}
use routers.Trip.State.{Trip, restore}
use routers.Matcher.Weigh.{Weigher}
use routers.Matcher.Run.{solve, solve_taken}
use routers.Matcher.Sound.{IsSound}
use routers.Matcher.Solves.{SolveAnswer, solve-SolveAnswer, IsSolved}

module _ {Edge Point Reachable : Type 0} (default : Point) (w : Weigher Edge Point Reachable) where
  solve_held :
      (trip : Trip Edge Point) (held : Solved)
      → trip.state ≡ solved held
      → solve default w trip ≡ ok (held.path, restore (solved held) trip)
  unfolding solve solve_taken
  solve_held trip held e = rw (solve, e) refl

  -- If a sound trip of fewer than 2^32 layers is solved, solving the trip that is left gives the same path again
  -- and leaves it as it is.
  pub solve-solve :
      (trip after : Trip Edge Point) (path : FoundPath)
      → IsSound trip
      → length trip.origins < u32_mod
      → solve default w trip ≡ ok (path, after)
      → solve default w after ≡ ok (path, after)
  solve-solve trip after path s small e =
      let answer : IsSolved default w trip after path =
        subst (SolveAnswer default w trip) e (solve-SolveAnswer default w trip s small) in
      solve_held after answer.held answer.state_eq
      ∙ ap₂ (λ p st. ok (p, restore st after)) answer.path_eq (sym answer.state_eq)
