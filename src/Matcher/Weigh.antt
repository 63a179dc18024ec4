-- ===== src/Matcher/Weigh.antt =====
-- libs/routers_transition/src/weigh/mod.rs: the weighing of pending boundaries.
use mathlib.Core.Option
use routers.Common.{
  ℕ, ◌+◌, ◌<◌, List, [], ◌∷◌, ◌++◌, Option, none, some, Bool, true, ◌&&◌, min, All, length,
  get_elem?, set, replicate, if◌then◌else◌, ◌==◌, as_u32,
}
use routers.Common.Maybe.{◌>>=◌}
use routers.Common.Outcome.{Outcome, ok, err, panic}
use routers.Trellis.Types.{LayerId, NodeId, TrellisError, no_edge, max_weight}
use routers.Trellis.Graph.{Trellis, boundaries, is_resolved_at}
use routers.Trellis.Edit.{fill_transition}
use routers.Trip.Store.{CandidateRef, Candidate, CandidateStore}

-- How a candidate is reached from another and what that costs, or that the costing has no context for it,
-- are of any strategy. The positions that `select` returns are positions within the next layer.
pub record Weigher (Edge Point Reachable : Type 0) : Type 0 where
  pub select :
      CandidateStore Edge Point → Candidate Edge Point → List (Candidate Edge Point) → List NodeId
  pub reach : CandidateStore Edge Point → CandidateRef → CandidateRef → Option Reachable
  pub cost : CandidateStore Edge Point → Reachable → Option ℕ
  pub select-lt :
      (s : CandidateStore Edge Point) (c : Candidate Edge Point)
      (to_layer : List (Candidate Edge Point))
      → All (λ n. n < length to_layer) (select s c to_layer)

-- A row with the weight of one hop, if there is one.
abbrev pub place : NodeId → Option ℕ → List ℕ → List ℕ
place n none row = row
place n (some cost) row = set row n cost

-- `matrix.iter().all(|w| w == NO_EDGE)`
abbrev pub all_absent : List ℕ → Bool
all_absent [] = true
all_absent (w ∷ ws) = w == no_edge && all_absent ws

-- The boundaries that are not resolved.
unfoldable pub unresolved : Trellis → List LayerId → List LayerId
unresolved t [] = []
unresolved t (b ∷ bs) = let rest = unresolved t bs in if is_resolved_at t b then rest else b ∷ rest

-- The loop that fills each boundary which something bridges. An error comes with the trellis as it is
-- left.
unfoldable pub fill_all :
    List (LayerId × List ℕ) → Trellis → Outcome (TrellisError × Trellis) Trellis
fill_all [] t = ok t
fill_all ((b, matrix) ∷ rest) t =
    elim (if all_absent matrix then ok t else fill_transition b matrix t) [
      | ok u ↦ fill_all rest u
      | err e ↦ err (e, t)
      | panic ↦ panic
    ]

module _ {Edge Point Reachable : Type 0} (w : Weigher Edge Point Reachable)
    (s : CandidateStore Edge Point) where
  abbrev pub hop : CandidateRef → CandidateRef → Option ℕ
  hop from to = w.reach s from to >>= λ reachable.
      Option.map (λ cost. min cost max_weight) (w.cost s reachable)

  -- The loop over the selected positions; an index out of range panics.
  unfoldable pub write_hops :
      Candidate Edge Point → List (Candidate Edge Point) → List NodeId → List ℕ → Option (List ℕ)
  write_hops source to_layer [] row = some row
  write_hops source to_layer (n ∷ ns) row = get_elem? to_layer n >>= λ target.
      write_hops source to_layer ns (place n (hop source.location target.location) row)

  unfoldable pub weigh_source : Candidate Edge Point → List (Candidate Edge Point) → Option (List ℕ)
  unfolding write_hops
  weigh_source source to_layer =
      write_hops source to_layer (w.select s source to_layer) (replicate (length to_layer) no_edge)

  -- The rows of the sources, in order.
  unfoldable pub weigh_rows :
      List (Candidate Edge Point) → List (Candidate Edge Point) → Option (List ℕ)
  unfolding weigh_source
  weigh_rows [] to_layer = some []
  weigh_rows (source ∷ sources) to_layer = do
    row ← weigh_source source to_layer
    rest ← weigh_rows sources to_layer
    some (row ++ rest)

  unfoldable pub weigh_boundary : LayerId → Option (List ℕ)
  unfolding weigh_rows
  weigh_boundary b = elim (get_elem? s.layers b) [
    | none ↦ some []
    | some from_layer ↦ elim (get_elem? s.layers (as_u32 (b + 1))) [
      | none ↦ some []
      | some to_layer ↦ weigh_rows from_layer to_layer
    ]
  ]

  unfoldable pub weigh_all : List LayerId → Option (List (LayerId × List ℕ))
  unfolding weigh_boundary
  weigh_all [] = some []
  weigh_all (b ∷ bs) = do matrix ← weigh_boundary b; rest ← weigh_all bs; some ((b, matrix) ∷ rest)

  unfoldable pub weigh : Trellis → Outcome (TrellisError × Trellis) Trellis
  unfolding weigh_all unresolved
  weigh t = elim (weigh_all (unresolved t (boundaries t))) [
    | none ↦ panic
    | some weighed ↦ fill_all weighed t
  ]
