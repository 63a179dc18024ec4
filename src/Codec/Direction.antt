-- ===== src/Codec/Direction.antt =====
-- libs/routers_codec/src/osm/parsers/primitives/direction.rs: directions along a way and sides of it.
use routers.Common.{◌≡◌, ◌≢◌, ◌⊎◌, Bool, true, false, Option, none, some}

pub data Directionality : Type 0 where
  both_ways : Directionality
  forward : Directionality
  backward : Directionality
  both : Directionality
  left : Directionality
  right : Directionality

unfoldable pub is_directional : Directionality → Bool
is_directional forward = true
is_directional backward = true
is_directional both_ways = true
is_directional _ = false

unfoldable pub is_positional : Directionality → Bool
is_positional left = true
is_positional right = true
is_positional both = true
is_positional _ = false

unfoldable pub opposite : Directionality → Option Directionality
opposite forward = some backward
opposite backward = some forward
opposite left = some right
opposite right = some left
opposite _ = none

-- A value that speaks of one direction or of one side, and its opposite: each is the other's, they differ, and
-- both are along the way or both at its sides.
abbrev pub Opposes : Directionality → Option Directionality → Type 0
Opposes d (some e) =
    (opposite e ≡ some d)
    × (e ≢ d)
    × (is_positional e ≡ is_positional d)
    × (d ≢ both_ways)
    × (d ≢ both)
Opposes d none = (d ≡ both_ways) ⊎ (d ≡ both)
