-- ===== src/Trellis/Graph.antt =====
-- The trellis and what it answers: the state, `new`, and the queries of
-- libs/routers_trellis/src/trellis.rs. `path_cost` is in Trellis/Cost.
use routers.Common.{
  ℕ, zero, suc, ◌+◌, ◌-◌, List, [], ◌∷◌, map, Option, none, some, Bool, true, false, not, ◌&&◌,
  length, get_elem?, u32_mod, replicate, if◌then◌else◌, ◌==◌, as_u32, Range, slice,
}
use mathlib.Core.Option
use routers.Common.Maybe.{◌>>=◌}
use routers.Common.Outcome.{Outcome, ok, err, panic, ok_or, or_panic}
use routers.Trellis.Types.{
  LayerId, NodeId, TrellisError, Transition, pending, resolved, is_resolved, weights,
}

pub record Trellis : Type 0 where
  pub widths : List ℕ
  pub nodes : List ℕ
  pub transitions : List Transition

-- The first index at which the test holds: `iter().position(..)`.
unfoldable pub position_from {ℓ} : {A : Type ℓ} → ℕ → (A → Bool) → List A → Option ℕ
position_from i p [] = none
position_from i p (x ∷ xs) = if p x then some i else position_from (suc i) p xs

abbrev pub sum : List ℕ → ℕ
sum [] = 0
sum (x ∷ xs) = x + sum xs

-- `windows(2).map(|_| Pending)`: one for each pair of neighbours.
unfoldable pub pending_between : List ℕ → List Transition
pending_between [] = []
pending_between (w ∷ []) = []
pending_between (w ∷ v ∷ ws) = pending ∷ pending_between (v ∷ ws)

-- The sum of the widths is a `u32` sum, which wraps in a release build.
unfoldable pub new : List ℕ → Outcome TrellisError Trellis
unfolding position_from pending_between
new [] = err TrellisError.empty
new (w ∷ ws) = elim (position_from 0 (λ x. x == 0) (w ∷ ws)) [
  | some l ↦ err (TrellisError.zero_width_layer (as_u32 l))
  | none ↦ ok (record {
    widths = w ∷ ws;
    nodes = replicate (as_u32 (sum (w ∷ ws))) 0;
    transitions = pending_between (w ∷ ws);
  })
]

abbrev pub layers : Trellis → ℕ
layers t = length t.widths

-- The numbers from `i`, as many as `n`.
unfoldable pub range_from : ℕ → ℕ → List ℕ
range_from i zero = []
range_from i (suc n) = i ∷ range_from (suc i) n

unfoldable pub boundaries : Trellis → List LayerId
unfolding range_from
boundaries t = map as_u32 (range_from 0 (length t.transitions))

-- The `scan` of `layer_ranges`.
unfoldable pub ranges_from : ℕ → List ℕ → List Range
ranges_from start [] = []
ranges_from start (w ∷ ws) = record { start = start; stop = start + w } ∷ ranges_from (start + w) ws

unfoldable pub layer_ranges : Trellis → List Range
unfolding ranges_from
layer_ranges t = ranges_from 0 t.widths

unfoldable pub is_resolved_at : Trellis → LayerId → Bool
is_resolved_at t layer = elim (get_elem? t.transitions layer) [
  | none ↦ false
  | some transition ↦ is_resolved transition
]

abbrev pub all_resolved : List Transition → Bool
all_resolved [] = true
all_resolved (x ∷ xs) = is_resolved x && all_resolved xs

unfoldable pub fully_resolved : Trellis → Bool
fully_resolved t = all_resolved t.transitions

unfoldable pub first_pending : Trellis → Option LayerId
unfolding position_from
first_pending t = Option.map as_u32 (position_from 0 (λ x. not (is_resolved x)) t.transitions)

-- The weights of one boundary, or nothing if it is pending or out of range.
unfoldable pub layer : Trellis → LayerId → Option (List ℕ)
layer t l = get_elem? t.transitions l >>= weights

unfoldable pub disconnected_from : ℕ → List Transition → List LayerId
disconnected_from i [] = []
disconnected_from i (pending ∷ ts) = as_u32 i ∷ disconnected_from (suc i) ts
disconnected_from i (resolved ws ∷ ts) = disconnected_from (suc i) ts

unfoldable pub disconnections : Trellis → List LayerId
unfolding disconnected_from
disconnections t = disconnected_from 0 t.transitions

unfoldable pub node_range : Trellis → LayerId → Outcome TrellisError Range
unfolding layer_ranges
node_range t l = ok_or (get_elem? (layer_ranges t) l) (TrellisError.layer_out_of_range l)

-- `None` is `err tt`.
unfoldable pub node_weights : Trellis → LayerId → Outcome (Unit {0}) (List ℕ)
unfolding node_range
node_weights t l = elim (node_range t l) [
  | ok r ↦ or_panic (slice t.nodes r)
  | err e ↦ err tt
  | panic ↦ panic
]

unfoldable pub node_weight : Trellis → LayerId → NodeId → Outcome (Unit {0}) ℕ
unfolding node_weights
node_weight t l n = elim (node_weights t l) [
  | ok ws ↦ ok_or (get_elem? ws n) tt
  | err e ↦ err e
  | panic ↦ panic
]

-- `widths.len() as u32 - 1`, which wraps. A trellis has a layer.
unfoldable pub last_id : Trellis → LayerId
last_id t = as_u32 (as_u32 (layers t) + (u32_mod - 1))
