-- ===== src/Trip/Phase.antt =====
-- libs/routers_transition/src/matcher/trip.rs: the states of a trip, and what its operations do to them.
use routers.Common.{ℕ, [], ◌∷◌, Option, none, some, Bool, true, false}
use routers.Common.Maybe.{◌>>=◌}
use routers.Common.Outcome.{Outcome, ok, err, panic, expect}
use routers.Trellis.Types.{LayerId, TrellisError, FoundPath}
use routers.Trellis.Graph.{Trellis, new}
use routers.Trellis.Edit.{add_layer, last}
use routers.Trip.Solved.{Solved, append}

pub data TripState : Type 0 where
  empty : TripState
  building : Trellis → TripState
  solved : Solved → TripState

-- `map_err`
abbrev pub map_err {ℓ κ κ'} :
    {E : Type κ} {F : Type κ'} {A : Type ℓ} → (E → F) → Outcome E A → Outcome F A
map_err f (ok a) = ok a
map_err f (err e) = err (f e)
map_err f panic = panic

abbrev pub trellis : TripState → Option Trellis
trellis empty = none
trellis (building t) = some t
trellis (solved s) = some s.trellis

abbrev pub path : TripState → Option FoundPath
path (solved s) = some s.path
path _ = none

abbrev pub is_solved : TripState → Bool
is_solved (solved s) = true
is_solved _ = false

-- The state after a cut to the last `n` layers.
abbrev pub tail_state : ℕ → TripState → Option TripState
tail_state n empty = some empty
tail_state n (building t) = expect (last n t) >>= λ u. some (building u)
tail_state n (solved s) = expect (last n s.trellis) >>= λ u. some (building u)

-- The trellis with its new layer. An error hands back the state that is left in the trip.
abbrev pub grow : ℕ → TripState → Outcome (TrellisError × TripState) (Trellis × LayerId)
grow width empty = elim (new (width ∷ [])) [
  | ok t ↦ ok (t, 0)
  | err e ↦ err (e, empty)
  | panic ↦ panic
]
grow width (building t) = map_err (λ e. (e, empty)) (add_layer width t)
grow width (solved s) = map_err (λ r. (r.1, solved r.0)) (append width s)
