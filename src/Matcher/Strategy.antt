-- ===== src/Matcher/Strategy.antt =====
-- libs/routers_transition/src/weigh/all_compute.rs: the strategy that weighs every candidate of the next
-- layer.
use routers.Common.{
  ℕ, zero, suc, ◌+◌, ◌≤◌, ◌<◌, ◌≡◌, refl, ap, ◌∙◌, List, [], ◌∷◌, Option, some, Bool, true, false,
  ◌||◌, if◌then◌else◌, All, arith, length, get_elem?, lt_of_get_elem?, u32_mod, as_u32,
  as_u32_of_lt, ◌==◌, eq→==, ℕ_discrete,
}
use routers.Trellis.Types.{NodeId, no_edge}
use routers.Trellis.Graph.{range_from}
use routers.Trip.Store.{CandidateRef, Candidate, CandidateStore}
use routers.Matcher.Weigh.{Weigher, hop, weigh_source}
use routers.Matcher.Rows.{selected, cell_of, weigh_source-get_elem?}
use routers.Matcher.Pending.{range_from-lt}

All-weaken : (n m : ℕ) (ks : List ℕ) → n ≤ m → All (λ k. k < n) ks → All (λ k. k < m) ks
All-weaken n m [] h k = tt
All-weaken n m (x ∷ xs) h k = (omega (arith, k.0), All-weaken n m xs h k.1)

as_u32_le : (n : ℕ) → as_u32 n ≤ n
unfolding as_u32
as_u32_le n = omega arith

selected_range : (i n j : ℕ) → i ≤ j → j < i + n → selected j (range_from i n) ≡ true
unfolding range_from
selected_range i zero j h k = absurd (omega arith)
selected_range i (suc n) j h k = elim (ℕ_discrete i j) [
  | yes e ↦ rw (eq→== i j e) refl
  | no later ↦
      rw (selected_range (suc i) n j (omega (arith, later)) (omega arith)) (or_true (i == j))
]
  where
    or_true : (b : Bool) → (b || true) ≡ true
    or_true true = refl
    or_true false = refl

module _ {Edge Point : Type 0} where
  unfoldable pub select_all :
      CandidateStore Edge Point → Candidate Edge Point → List (Candidate Edge Point) → List NodeId
  unfolding range_from
  select_all s source to_layer = range_from 0 (as_u32 (length to_layer))

  pub select_all-lt :
      (s : CandidateStore Edge Point) (source : Candidate Edge Point)
      (to_layer : List (Candidate Edge Point))
      → All (λ n. n < length to_layer) (select_all s source to_layer)
  unfolding select_all
  select_all-lt s source to_layer =
      let n = as_u32 (length to_layer) in
      All-weaken n (length to_layer) (range_from 0 n) (as_u32_le (length to_layer))
        (range_from-lt 0 n n (omega arith))

  -- The strategy over any routing and costing.
  abbrev pub all_compute :
      {Reachable : Type 0}
      → (CandidateStore Edge Point → CandidateRef → CandidateRef → Option Reachable)
      → (CandidateStore Edge Point → Reachable → Option ℕ)
      → Weigher Edge Point Reachable
  all_compute reach cost = record {
    select = select_all;
    reach = reach;
    cost = cost;
    select-lt = select_all-lt;
  }

-- With every candidate selected, each cell of a row is the weight of the hop, or the sentinel if there is none.
pub weigh_source-all_compute :
    {Edge Point Reachable : Type 0}
    (reach : CandidateStore Edge Point → CandidateRef → CandidateRef → Option Reachable)
    (cost : CandidateStore Edge Point → Reachable → Option ℕ) (s : CandidateStore Edge Point)
    (source target : Candidate Edge Point) (to_layer : List (Candidate Edge Point)) (j : NodeId)
    (row : List ℕ)
    → length to_layer < u32_mod
    → get_elem? to_layer j ≡ some target
    → weigh_source (all_compute reach cost) s source to_layer ≡ some row
    → get_elem? row j
      ≡ some (cell_of (hop (all_compute reach cost) s source.location target.location))
unfolding select_all
weigh_source-all_compute reach cost s source target to_layer j row small at e =
    let w = all_compute reach cost in
    weigh_source-get_elem? w s source target to_layer j row at e
    ∙ ap (λ b. some (if b then cell_of (hop w s source.location target.location) else no_edge))
        (selected_range 0 (as_u32 (length to_layer)) j (omega arith)
          (omega (arith, lt_of_get_elem? to_layer j at, as_u32_of_lt (length to_layer) small)))
