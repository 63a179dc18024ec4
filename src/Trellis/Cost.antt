-- ===== src/Trellis/Cost.antt =====
-- The price of a path: `edge_weight` and `path_cost` of libs/routers_trellis/src/trellis.rs. An index
-- out of range and a failed `expect` are panics, here `none`.
use routers.Common.{
  ℕ, suc, ◌+◌, ◌*◌, List, [], ◌∷◌, Option, none, some, get_elem?, as_u32, saturating_add,
}
use routers.Common.Maybe.{◌>>=◌}
use routers.Common.Outcome.{expect}
use routers.Trellis.Types.{LayerId, NodeId, Transition, pending, resolved, inf_w}
use routers.Trellis.Graph.{Trellis, node_weight}

-- The weight in a boundary's row-major matrix, the infinity while it is pending.
abbrev pub entry : ℕ → Transition → NodeId → NodeId → Option ℕ
entry next_width pending from to = some inf_w
entry next_width (resolved ws) from to = get_elem? ws (from * next_width + to)

unfoldable pub edge_weight : Trellis → LayerId → NodeId → NodeId → Option ℕ
edge_weight t l from to = do
  next_width ← get_elem? t.widths (l + 1)
  transition ← get_elem? t.transitions l
  entry next_width transition from to

-- The closure of `path_cost`.
unfoldable pub node_cost : Trellis → ℕ → NodeId → Option ℕ
unfolding node_weight
node_cost t l n = expect (node_weight t (as_u32 l) n)

-- One round of the loop over `nodes.windows(2)`.
unfoldable pub hop : Trellis → ℕ → ℕ → NodeId → NodeId → Option ℕ
unfolding edge_weight node_cost
hop t l cost from to = do
  edge ← edge_weight t (as_u32 l) from to
  weight ← node_cost t (l + 1) to
  some (saturating_add (saturating_add cost edge) weight)

unfoldable pub hops : Trellis → ℕ → ℕ → NodeId → List NodeId → Option ℕ
unfolding hop
hops t l cost from [] = some cost
hops t l cost from (to ∷ rest) = hop t l cost from to >>= λ c. hops t (suc l) c to rest

unfoldable pub path_cost : Trellis → List NodeId → Option ℕ
unfolding hops
path_cost t [] = none
path_cost t (n ∷ ns) = node_cost t 0 n >>= λ c. hops t 0 c n ns
