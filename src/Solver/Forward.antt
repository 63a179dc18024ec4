-- ===== src/Solver/Forward.antt =====
-- The forward pass of libs/routers_trellis/src/solver/viterbi.rs over the flat table. A slice out of
-- range panics, here `none`.
use routers.Common.{
  ℕ, ◌+◌, ◌%◌, List, [], ◌∷◌, ◌++◌, Option, none, some, min, length, take, drop, replicate,
  if◌then◌else◌, ltb, leb, ◌==◌, u32_mod, Range, len, slice,
}
use routers.Common.Maybe.{◌>>=◌}
use routers.Trellis.Types.{LayerId, inf_w}

-- A `u32` sum, which wraps in a release build.
unfoldable pub add_u32 : ℕ → ℕ → ℕ
add_u32 a b = (a + b) % u32_mod

-- One boundary with the places of its two layers in the flat table.
pub record Boundary : Type 0 where
  pub id : LayerId
  pub cur : Range
  pub next : Range
  pub weights : List ℕ
  pub node_weights : List ℕ

-- The inner loop over one row of weights.
unfoldable pub relax_row : ℕ → List ℕ → List ℕ → List ℕ
unfolding add_u32
relax_row cost [] row = []
relax_row cost (n ∷ ns) [] = n ∷ ns
relax_row cost (n ∷ ns) (edge ∷ row) = min n (add_u32 cost edge) ∷ relax_row cost ns row

-- The loop over the costs of the layer below, each with its chunk of `width` weights.
unfoldable pub relax : ℕ → List ℕ → List ℕ → List ℕ → List ℕ
unfolding relax_row
relax width [] weights next = next
relax width (cost ∷ costs) weights next =
    let rest =
      relax width costs (drop width weights)
        (if ltb cost inf_w then relax_row cost next (take width weights) else next) in
    if leb width (length weights) then rest else next

-- Entering a node costs its weight.
unfoldable pub enter : List ℕ → List ℕ → List ℕ
unfolding add_u32
enter [] weights = []
enter (n ∷ ns) [] = n ∷ ns
enter (n ∷ ns) (w ∷ ws) = (if ltb n inf_w then add_u32 n w else n) ∷ enter ns ws

-- The costs of the layer above, from those below.
unfoldable pub next_row : List ℕ → List ℕ → ℕ → List ℕ → List ℕ
unfolding relax enter
next_row cur weights width node_weights =
    enter (relax width cur weights (replicate width inf_w)) node_weights

-- One round of the forward pass: `split_at_mut`, and the loops over the two slices. A chunk of width
-- 0 panics.
unfoldable pub advance : Boundary → List ℕ → Option (List ℕ)
advance b dist =
    let width = len b.next in
    if width == 0 then none else do
      head ← slice dist (record { start = 0; stop = b.next.start })
      let tail = drop b.next.start dist
      next ← slice tail (record { start = 0; stop = width })
      cur ← slice head b.cur
      some (head ++ (next_row cur b.weights width b.node_weights ++ drop width tail))

unfoldable pub forward_pass : List Boundary → List ℕ → Option (List ℕ)
forward_pass [] dist = some dist
forward_pass (b ∷ bs) dist = advance b dist >>= forward_pass bs
