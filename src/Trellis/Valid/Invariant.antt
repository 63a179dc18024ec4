-- ===== src/Trellis/Valid/Invariant.antt =====
-- What holds of every trellis that `new` and the operations build.
use routers.Common.{ℕ, ◌≤◌, ◌<◌, ◌≡◌, length, All, u32_mod}
use routers.Trellis.Types.{max_weight}
use routers.Trellis.Graph.{Trellis, sum}
use routers.Trellis.Shape.{IsShaped}

-- The width of a layer: positive, and a `u32`.
abbrev pub IsWidth : ℕ → Type 0
IsWidth w = (0 < w) × (w < u32_mod)

pub record IsValid (t : Trellis) : Type 0 where
  pub has_layer : 0 < length t.widths
  pub widths_ok : All IsWidth t.widths
  pub node_count : length t.nodes ≡ sum t.widths
  pub nodes_ok : All (λ w. w ≤ max_weight) t.nodes
  pub shape : IsShaped t.widths t.transitions
