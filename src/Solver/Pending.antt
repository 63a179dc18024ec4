-- ===== src/Solver/Pending.antt =====
-- A trellis with a pending boundary: the first one is the error.
use mathlib.Core.List.{zip}
use mathlib.Core.Option.{some-injective}
use routers.Common.{
  ℕ, suc, ◌+◌, ◌-◌, ◌≤◌, ◌<◌, ◌≡◌, refl, ap, ◌∙◌, List, [], ◌∷◌, map, some, none, arith, true,
  false, not, length, drop, get_elem?, Range, slice, as_u32, as_u32_of_lt, u32_mod, All, All-drop,
  le→leb, take,
}
use routers.Common.Outcome.{err}
use routers.Trellis.Types.{
  LayerId, not_resolved, Transition, pending, resolved, is_resolved, weights,
}
use routers.Trellis.Graph.{
  Trellis, sum, layer, all_resolved, fully_resolved, first_pending, position_from, range_from,
  ranges_from, layer_ranges, boundaries as boundary_ids,
}
use routers.Trellis.Shape.{IsShaped-length}
use routers.Trellis.Valid.{IsValid}
use routers.Solver.Viterbi.{boundary, collect, boundaries}
use routers.Solver.Positions.{boundary_resolved}

-- Resolved throughout, or a first transition that is not.
position_none :
    (k : ℕ) (ts : List Transition)
    → all_resolved ts ≡ true
    → position_from k (λ x. not (is_resolved x)) ts ≡ none
unfolding position_from
position_none k [] h = refl
position_none k (pending ∷ ts) h = absurd (ground arith)
position_none k (resolved ws ∷ ts) h = position_none (suc k) ts h

position_some :
    (k : ℕ) (ts : List Transition)
    → all_resolved ts ≡ false
    → (l : ℕ) × (position_from k (λ x. not (is_resolved x)) ts ≡ some l)
unfolding position_from
position_some k [] h = absurd (ground arith)
position_some k (pending ∷ ts) h = (k, refl)
position_some k (resolved ws ∷ ts) h = position_some (suc k) ts h

pub first_pending-none : (t : Trellis) → fully_resolved t ≡ true → first_pending t ≡ none
unfolding fully_resolved first_pending
first_pending-none t h = rw (position_none 0 t.transitions h) refl

-- A range whose nodes are there.
abbrev HasNodes : Trellis → Range → Type 0
HasNodes t r = (ws : List ℕ) × (slice t.nodes r ≡ some ws)

cancel : (a b : ℕ) → a + b - a ≡ b
cancel a b = omega arith

ranges-HasNodes :
    (t : Trellis) (start : ℕ) (ws : List ℕ)
    → start + sum ws ≤ length t.nodes
    → All (HasNodes t) (ranges_from start ws)
unfolding ranges_from slice
ranges-HasNodes t start [] h = tt
ranges-HasNodes t start (w ∷ ws) h = (
  (
    take w (drop start t.nodes),
    rw (le→leb start (start + w) (omega arith), le→leb (start + w) (length t.nodes) (omega arith))
        (ap (λ n. some (take n (drop start t.nodes))) (cancel start w)),
  ),
  ranges-HasNodes t (start + w) ws (omega arith),
)

zip-HasNodes :
    (t : Trellis) (rs qs : List Range)
    → All (HasNodes t) qs
    → All (λ (p : Range × Range). HasNodes t p.1) (zip rs qs)
unfolding zip
zip-HasNodes t [] qs h = tt
zip-HasNodes t (r ∷ rs) [] h = tt
zip-HasNodes t (r ∷ rs) (q ∷ qs) h = (h.0, zip-HasNodes t rs qs h.1)

length-zip-drop : (rs : List Range) → length (zip rs (drop 1 rs)) ≡ length rs - 1
unfolding zip
length-zip-drop [] = refl
length-zip-drop (r ∷ []) = refl
length-zip-drop (r ∷ s ∷ rs) = omega (arith, length-zip-drop (s ∷ rs))

boundary_pending :
    (t : Trellis) (id : LayerId) (cur next : Range)
    → layer t id ≡ none
    → boundary t id cur next ≡ err (not_resolved id)
unfolding boundary
boundary_pending t id cur next e = rw (e, boundary) refl

layer_at :
    (t : Trellis) (k : ℕ) {x : Transition}
    → k < u32_mod
    → get_elem? t.transitions k ≡ some x
    → layer t (as_u32 k) ≡ weights x
unfolding layer
layer_at t k h e = rw (as_u32_of_lt k h, e) refl

here :
    (t : Trellis) (k : ℕ) (x : Transition) (ts : List Transition)
    → ((i : ℕ) → get_elem? t.transitions (k + i) ≡ get_elem? (x ∷ ts) i)
    → get_elem? t.transitions k ≡ some x
here t k x ts at = ap (get_elem? t.transitions) (plus_zero k) ∙ at 0
  where
    plus_zero : (n : ℕ) → n ≡ n + 0
    plus_zero n = omega arith

next_index : (k i : ℕ) → suc k + i ≡ k + suc i
next_index k i = omega arith

length-ranges_from : (start : ℕ) (ws : List ℕ) → length (ranges_from start ws) ≡ length ws
unfolding ranges_from
length-ranges_from start [] = refl
length-ranges_from start (w ∷ ws) = ap suc (length-ranges_from (start + w) ws)

-- Collecting from boundary `k` on stops at the first pending one.
collect-pending :
    (t : Trellis) (k : ℕ) (ts : List Transition) (rs : List (Range × Range)) (l : ℕ)
    → ((i : ℕ) → get_elem? t.transitions (k + i) ≡ get_elem? ts i)
    → length rs ≡ length ts
    → k + length ts ≤ u32_mod
    → All (λ (p : Range × Range). HasNodes t p.1) rs
    → position_from k (λ x. not (is_resolved x)) ts ≡ some l
    → collect t (zip (map as_u32 (range_from k (length ts))) rs) ≡ err (not_resolved (as_u32 l))
unfolding collect zip range_from position_from
collect-pending t k [] rs l at size small has p = absurd (ground arith)
collect-pending t k (x ∷ ts) [] l at size small has p = absurd (omega arith)
collect-pending t k (pending ∷ ts) (r ∷ rs) l at size small has p =
    rw (boundary_pending t (as_u32 k) r.0 r.1 (layer_at t k (omega arith) (here t k pending ts at)))
      (ap (λ n. err (not_resolved (as_u32 n))) (some-injective k l p))
collect-pending t k (resolved ws ∷ ts) (r ∷ rs) l at size small has p =
    rw
      (
        boundary_resolved t (as_u32 k) r.0 r.1
            (layer_at t k (omega arith) (here t k (resolved ws) ts at)) has.0.1,
        collect-pending t (suc k) ts rs l
            (λ i. ap (get_elem? t.transitions) (next_index k i) ∙ at (suc i)) (omega arith)
            (omega arith) has.1 p,
      )
      refl

-- On a valid trellis of fewer than 2^32 layers that is not fully resolved, `boundaries` fails with
-- `NotResolved` of the first pending boundary.
pub boundaries-pending :
    (t : Trellis)
    → IsValid t
    → length t.widths < u32_mod
    → fully_resolved t ≡ false
    → (l : LayerId) × (first_pending t ≡ some l) × (boundaries t ≡ err (not_resolved l))
unfolding fully_resolved first_pending boundaries boundary_ids layer_ranges
boundaries-pending t v small h =
    let (l, found) = position_some 0 t.transitions h in
    let edges : length t.transitions ≡ length t.widths - 1 =
      IsShaped-length t.widths t.transitions v.shape in
    let ranges = ranges_from 0 t.widths in
    (
      as_u32 l,
      rw found refl,
      collect-pending t 0 t.transitions (zip ranges (drop 1 ranges)) l
          (λ i. ap (get_elem? t.transitions) (omega arith))
          (omega (arith, length-zip-drop ranges, length-ranges_from 0 t.widths)) (omega arith)
          (zip-HasNodes t ranges (drop 1 ranges) (
            All-drop (HasNodes t) 1 ranges
              (ranges-HasNodes t 0 t.widths (omega (arith, v.node_count)))))
          found,
    )
