-- ===== src/Trip/Effects.antt =====
-- What `Solved::append` returns.
use routers.Common.{ℕ, ◌<◌, ◌≡◌, refl, length, as_u32}
use routers.Common.Outcome.{ok, err}
use routers.Trellis.Types.{TrellisError}
use routers.Trellis.Effects.{grown, add_layer_lem, add_layer_empty}
use routers.Trip.Solved.{Solved, append}

pub append_lem :
    (width : ℕ) (s : Solved)
    → 0 < width
    → append width s ≡ ok (grown width s.trellis, as_u32 (length s.trellis.widths))
unfolding append
append_lem width s h = rw (add_layer_lem width s.trellis h, append) refl

pub append_empty :
    (s : Solved)
    → append 0 s ≡ err (s, TrellisError.zero_width_layer (as_u32 (length s.trellis.widths)))
unfolding append
append_empty s = rw (add_layer_empty s.trellis, append) refl
