-- ===== src/Trellis/Edit.antt =====
-- The operations of libs/routers_trellis/src/trellis.rs that change a trellis or cut one out of it.
-- Each tests its arguments before it writes, so an error leaves the trellis as it was.
use routers.Common.{
  ℕ, ◌+◌, ◌-◌, ◌*◌, List, [], ◌∷◌, ◌++◌, map, not, ◌&&◌, length, get_elem?, set, replicate,
  if◌then◌else◌, ltb, leb, ◌==◌, as_u32, len, slice, write_slice,
}
use routers.Common.Outcome.{Outcome, ok, panic, ◌>>=◌, ◌>>◌, fail_if, or_panic}
use routers.Trellis.Types.{
  LayerId, NodeId, TrellisError, Transition, pending, resolved, weights, ensure_resolved, inf_w,
  no_edge, max_weight,
}
use routers.Trellis.Graph.{Trellis, layers, node_range}

unfoldable pub mark_pending : LayerId → Trellis → Outcome TrellisError Trellis
mark_pending layer t = do
  fail_if (leb (length t.transitions) layer) (TrellisError.layer_out_of_range layer)
  ok (record t { transitions = set t.transitions layer pending })

-- `weights_mut().unwrap()[i] = weight`
abbrev pub write_weight : ℕ → ℕ → Transition → Outcome TrellisError Transition
write_weight i weight pending = panic
write_weight i weight (resolved ws) =
    if ltb i (length ws) then ok (resolved (set ws i weight)) else panic

unfoldable pub set_edge : LayerId → NodeId → NodeId → ℕ → Trellis → Outcome TrellisError Trellis
set_edge layer from to weight t = do
  fail_if (ltb max_weight weight) (TrellisError.weight_too_large weight)
  fail_if (leb (length t.widths) (layer + 1)) (TrellisError.layer_out_of_range layer)
  cur_width ← or_panic (get_elem? t.widths layer)
  next_width ← or_panic (get_elem? t.widths (layer + 1))
  fail_if (leb cur_width from) (TrellisError.node_out_of_range layer from)
  fail_if (leb next_width to) (TrellisError.node_out_of_range (as_u32 (layer + 1)) to)
  transition ← or_panic (get_elem? t.transitions layer)
  written ←
      write_weight (from * next_width + to) weight
        (ensure_resolved (cur_width * next_width) transition)
  ok (record t { transitions = set t.transitions layer written })

unfoldable pub add_layer : ℕ → Trellis → Outcome TrellisError (Trellis × LayerId)
add_layer width t = do
  let id = as_u32 (length t.widths)
  fail_if (width == 0) (TrellisError.zero_width_layer id)
  ok (
    record t {
      widths = t.widths ++ (width ∷ []);
      nodes = t.nodes ++ replicate width 0;
      transitions = t.transitions ++ (pending ∷ []);
    },
    id,
  )

-- The loop that refuses a weight which is neither real nor the sentinel.
abbrev pub check_rows : List ℕ → Outcome TrellisError (Unit {0})
check_rows [] = ok tt
check_rows (w ∷ ws) =
    fail_if (not (w == no_edge) && ltb max_weight w) (TrellisError.weight_too_large w)
    >> check_rows ws

abbrev pub stored_weight : ℕ → ℕ
stored_weight w = if w == no_edge then inf_w else w

unfoldable pub fill_transition : LayerId → List ℕ → Trellis → Outcome TrellisError Trellis
fill_transition layer rows t = do
  fail_if (leb (length t.widths) (layer + 1)) (TrellisError.layer_out_of_range layer)
  cur_width ← or_panic (get_elem? t.widths layer)
  next_width ← or_panic (get_elem? t.widths (layer + 1))
  fail_if (not (length rows == cur_width * next_width))
      (TrellisError.transition_len_mismatch layer (cur_width * next_width) (length rows))
  check_rows rows
  _ ← or_panic (get_elem? t.transitions layer)
  ok (record t { transitions = set t.transitions layer (resolved (map stored_weight rows)) })

-- `iter().find(|w| w > MAX_WEIGHT)`
abbrev pub check_nodes : List ℕ → Outcome TrellisError (Unit {0})
check_nodes [] = ok tt
check_nodes (w ∷ ws) =
    fail_if (ltb max_weight w) (TrellisError.weight_too_large w) >> check_nodes ws

unfoldable pub fill_nodes : LayerId → List ℕ → Trellis → Outcome TrellisError Trellis
unfolding node_range
fill_nodes layer weights t = do
  range ← node_range t layer
  fail_if (not (length weights == len range))
      (TrellisError.node_len_mismatch layer (len range) (length weights))
  check_nodes weights
  nodes ← or_panic (write_slice t.nodes range weights)
  ok (record t { nodes = nodes })

-- The layers from `start` up to `stop`.
unfoldable pub partition : LayerId → LayerId → Trellis → Outcome TrellisError Trellis
unfolding node_range
partition start stop t = do
  fail_if (leb stop start) TrellisError.empty
  fail_if (ltb (layers t) stop) (TrellisError.layer_out_of_range stop)
  first ← node_range t start
  final ← node_range t (as_u32 stop - 1)
  widths ← or_panic (slice t.widths (record { start = start; stop = stop }))
  nodes ← or_panic (slice t.nodes (record { start = first.start; stop = final.stop }))
  transitions ← or_panic (slice t.transitions (record { start = start; stop = stop - 1 }))
  ok (record { widths = widths; nodes = nodes; transitions = transitions })

-- The last `n` layers; `n` is clamped to the layer count.
unfoldable pub last : ℕ → Trellis → Outcome TrellisError Trellis
unfolding partition
last n t = partition (as_u32 (layers t - n)) (as_u32 (layers t)) t
