-- ===== src/Matcher/Error.antt =====
-- libs/routers_transition/src/primitives/error.rs
use routers.Common.{ℕ, List}
use routers.Trellis.Types.{TrellisError, SolveError}

pub record Unanchored (Point : Type 0) : Type 0 where
  pub layer : ℕ
  pub origin : Point

pub record Disconnected (Point : Type 0) : Type 0 where
  pub from_layer : ℕ
  pub to_layer : ℕ
  pub from_origin : Point
  pub to_origin : Point

pub data MatchError (Point : Type 0) : Type 0 where
  unanchored : List (Unanchored Point) → MatchError Point
  disconnected : List (Disconnected Point) → MatchError Point
  trellis_error : TrellisError → MatchError Point
  solve_error : SolveError → MatchError Point
