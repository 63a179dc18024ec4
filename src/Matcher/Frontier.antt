-- ===== src/Matcher/Frontier.antt =====
-- libs/routers_transition/src/weigh/mod.rs: `frontier_collapse`, which finds the boundaries where the
-- nodes that can be reached run out. An index out of range panics: `none`.
use routers.Common.{
  ℕ, ◌+◌, ◌*◌, List, [], ◌∷◌, Option, none, some, Bool, true, false, get_elem?, if◌then◌else◌, leb,
}
use routers.Common.Maybe.{◌>>=◌}
use routers.Trellis.Types.{LayerId, NodeId, max_weight}
use routers.Trellis.Graph.{Trellis, layer, boundaries, range_from}

-- `any`: the first source with a present edge to the target ends it.
unfoldable pub reached : List ℕ → ℕ → List NodeId → NodeId → Option Bool
reached matrix to_width [] target = some false
reached matrix to_width (s ∷ ss) target = get_elem? matrix (s * to_width + target) >>= λ weight.
    elim (leb weight max_weight) [ true ↦ some true | false ↦ reached matrix to_width ss target ]

-- `filter` over the targets.
unfoldable pub reached_targets : List ℕ → ℕ → List NodeId → List NodeId → Option (List NodeId)
unfolding reached
reached_targets matrix to_width reachable [] = some []
reached_targets matrix to_width reachable (target ∷ targets) = do
  hit ← reached matrix to_width reachable target
  rest ← reached_targets matrix to_width reachable targets
  some (if hit then target ∷ rest else rest)

unfoldable pub next_frontier : Trellis → LayerId → ℕ → List NodeId → Option (List NodeId)
unfolding reached_targets range_from
next_frontier t boundary to_width reachable = elim (layer t boundary) [
  | none ↦ some []
  | some matrix ↦ reached_targets matrix to_width reachable (range_from 0 to_width)
]

-- The loop over the boundaries; past a break every node of the next layer counts.
unfoldable pub collapse_from : Trellis → List LayerId → List NodeId → Option (List LayerId)
unfolding next_frontier range_from
collapse_from t [] reachable = some []
collapse_from t (boundary ∷ rest) reachable = get_elem? t.widths (boundary + 1) >>= λ to_width.
    next_frontier t boundary to_width reachable >>= λ next. elim next [
      | [] ↦ do breaks ← collapse_from t rest (range_from 0 to_width); some (boundary ∷ breaks)
      | n ∷ ns ↦ collapse_from t rest (n ∷ ns)
    ]

unfoldable pub frontier_collapse : Trellis → Option (List LayerId)
unfolding collapse_from
frontier_collapse t = do
  width ← get_elem? t.widths 0
  collapse_from t (boundaries t) (range_from 0 width)
