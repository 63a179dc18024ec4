-- ===== src/Solver/Priced.antt =====
-- `path_cost` of libs/routers_trellis/src/trellis.rs prices exactly the paths with a node within each layer.
use native.Mathlib.Numerals.{add-one}
use routers.Common.{
  ℕ, zero, suc, ◌+◌, ◌*◌, ◌≤◌, ◌<◌, ◌≡◌, refl, ap, ◌∙◌, sym, List, [], ◌∷◌, Option, none, some,
  true, arith, length, get_elem?, get_elem?-some, lt_of_get_elem?, length-take, length-drop, take,
  drop, u32_mod, as_u32, as_u32_of_lt, saturating_add, len, slice, Range,
}
use mathlib.Core.Option.{some-injective}
use routers.Common.Maybe.{>>=-eq-some}
use routers.Common.Outcome.{ok, expect, ok_or}
use routers.Trellis.Types.{NodeId, Transition, pending, resolved}
use routers.Trellis.Graph.{
  Trellis, layers, node_range, node_weights, node_weight, all_resolved, fully_resolved,
}
use routers.Trellis.Cost.{edge_weight, node_cost, hop, hops, path_cost}
use routers.Trellis.Shape.{IsShaped-length, IsShaped-get_elem?}
use routers.Trellis.Valid.{IsValid, Place-of_lt, slice_within, cell_in_range}
use routers.Trellis.Valid.Slots.{sum-take-le}
use routers.Solver.Odometer.{InRange}

node_weights_lem :
    (t : Trellis) (l : ℕ) (r : Range) (ws : List ℕ)
    → node_range t l ≡ ok r
    → slice t.nodes r ≡ some ws
    → node_weights t l ≡ ok ws
unfolding node_weights
node_weights_lem t l r ws p q = rw (node_weights, p, q) refl

expect-ok_or : (o : Option ℕ) → expect (ok_or {E = Unit {0}} o tt) ≡ o
expect-ok_or none = refl
expect-ok_or (some x) = refl

-- The weights of a layer: one for each node.
node_weights-length :
    (t : Trellis) (l width : ℕ)
    → IsValid t
    → get_elem? t.widths l ≡ some width
    → (ws : List ℕ) × (node_weights t l ≡ ok ws) × (length ws ≡ width)
node_weights-length t l width v at =
    let p = Place-of_lt t l (lt_of_get_elem? t.widths l at) in
    let same : p.width ≡ width = some-injective p.width width (sym p.width_eq ∙ at) in
    let inside : p.range.stop ≤ length t.nodes =
      omega (arith, p.stop_eq, sum-take-le (suc l) t.widths, v.node_count) in
    (
      take (len p.range) (drop p.range.start t.nodes),
      node_weights_lem t l p.range (take (len p.range) (drop p.range.start t.nodes)) p.range_eq
          (slice_within t.nodes p.range (omega (arith, p.len_eq)) inside),
      omega (
        arith,
        length-take (len p.range) (drop p.range.start t.nodes),
        length-drop p.range.start t.nodes,
        p.len_eq,
        same,
        inside,
      ),
    )

node_cost_lem :
    (t : Trellis) (l n : ℕ) (ws : List ℕ)
    → l < u32_mod
    → node_weights t l ≡ ok ws
    → node_cost t l n ≡ get_elem? ws n
unfolding node_cost node_weight
node_cost_lem t l n ws small e =
    rw (node_cost, node_weight, as_u32_of_lt l small, e) (expect-ok_or (get_elem? ws n))

pub node_cost-some :
    (t : Trellis) (l n width : ℕ)
    → IsValid t
    → l < u32_mod
    → get_elem? t.widths l ≡ some width
    → n < width
    → (x : ℕ) × (node_cost t l n ≡ some x)
node_cost-some t l n width v small at h =
    let (ws, found, size) = node_weights-length t l width v at in
    let (x, x_eq) = get_elem?-some ws n (omega (arith, size)) in
    (x, node_cost_lem t l n ws small found ∙ x_eq)

pub node_cost-lt :
    (t : Trellis) (l n width x : ℕ)
    → IsValid t
    → l < u32_mod
    → get_elem? t.widths l ≡ some width
    → node_cost t l n ≡ some x
    → n < width
node_cost-lt t l n width x v small at e =
    let (ws, found, size) = node_weights-length t l width v at in
    omega (arith, size, lt_of_get_elem? ws n (sym (node_cost_lem t l n ws small found) ∙ e))

all_resolved-get_elem? :
    (ts : List Transition) (i : ℕ) {x : Transition}
    → all_resolved ts ≡ true
    → get_elem? ts i ≡ some x
    → (ws : List ℕ) × (get_elem? ts i ≡ some (resolved ws))
all_resolved-get_elem? [] i h e = absurd (ground arith)
all_resolved-get_elem? (pending ∷ ts) i h e = absurd (ground arith)
all_resolved-get_elem? (resolved ws ∷ ts) zero h e = (ws, refl)
all_resolved-get_elem? (resolved ws ∷ ts) (suc i) h e = all_resolved-get_elem? ts i h e

-- An edge between nodes within their layers has a weight.
edge_weight-some :
    (t : Trellis) (l f g cur next : ℕ)
    → IsValid t
    → fully_resolved t ≡ true
    → get_elem? t.widths l ≡ some cur
    → get_elem? t.widths (suc l) ≡ some next
    → f < cur
    → g < next
    → (x : ℕ) × (edge_weight t l f g ≡ some x)
unfolding edge_weight fully_resolved
edge_weight-some t l f g cur next v done at after p q =
    let (x, x_eq) = get_elem?-some t.transitions l (
      omega (
        arith,
        IsShaped-length t.widths t.transitions v.shape,
        lt_of_get_elem? t.widths (suc l) after,
      )) in
    let (ws, ws_eq) = all_resolved-get_elem? t.transitions l done x_eq in
    let fit = IsShaped-get_elem? t.widths t.transitions l v.shape at after ws_eq in
    let (e, e_eq) =
      get_elem?-some ws (f * next + g) (omega (arith, fit.0, cell_in_range f g cur next p q)) in
    (e, rw (edge_weight, add-one, after, ws_eq) e_eq)

-- The widths from a layer on.
abbrev Suffix : Trellis → ℕ → List ℕ → Type 0
Suffix t l ws = (i : ℕ) → get_elem? t.widths (l + i) ≡ get_elem? ws i

suffix_head :
    (t : Trellis) (l w : ℕ) (ws : List ℕ) → Suffix t l (w ∷ ws) → get_elem? t.widths l ≡ some w
suffix_head t l w ws at = ap (get_elem? t.widths) (plus_zero l) ∙ at 0
  where
    plus_zero : (n : ℕ) → n ≡ n + 0
    plus_zero n = omega arith

suffix_tail : (t : Trellis) (l w : ℕ) (ws : List ℕ) → Suffix t l (w ∷ ws) → Suffix t (suc l) ws
suffix_tail t l w ws at = λ i. ap (get_elem? t.widths) (step l i) ∙ at (suc i)
  where
    step : (n i : ℕ) → suc n + i ≡ n + suc i
    step n i = omega arith

module _ (t : Trellis) (v : IsValid t) (small : layers t < u32_mod) where
  hops-some :
      (l cost from width : ℕ) (ws : List ℕ) (ns : List NodeId)
      → fully_resolved t ≡ true
      → get_elem? t.widths l ≡ some width
      → from < width
      → Suffix t (suc l) ws
      → InRange ws ns
      → (c : ℕ) × (hops t l cost from ns ≡ some c)
  unfolding hops hop
  hops-some l cost from width [] [] done at h suffix inside = (cost, refl)
  hops-some l cost from width [] (n ∷ ns) done at h suffix inside = absurd inside
  hops-some l cost from width (w ∷ ws) [] done at h suffix inside = absurd inside
  hops-some l cost from width (w ∷ ws) (n ∷ ns) done at h suffix inside =
      let after = suffix_head t (suc l) w ws suffix in
      let bound = lt_of_get_elem? t.widths (suc l) after in
      let (e, e_eq) = edge_weight-some t l from n width w v done at after h inside.0 in
      let (x, x_eq) = node_cost-some t (suc l) n w v (omega arith) after inside.0 in
      let (c, c_eq) =
        hops-some (suc l) (saturating_add (saturating_add cost e) x) n w ws ns done after inside.0
          (suffix_tail t (suc l) w ws suffix) inside.1 in
      (c, rw (as_u32_of_lt l (omega arith), e_eq, add-one, x_eq) c_eq)

  hops-InRange :
      (l cost from c : ℕ) (ws : List ℕ) (ns : List NodeId)
      → length ns ≡ length ws
      → Suffix t (suc l) ws
      → hops t l cost from ns ≡ some c
      → InRange ws ns
  unfolding hops hop
  hops-InRange l cost from c [] [] size suffix e = tt
  hops-InRange l cost from c [] (n ∷ ns) size suffix e = absurd (omega arith)
  hops-InRange l cost from c (w ∷ ws) [] size suffix e = absurd (omega arith)
  hops-InRange l cost from c (w ∷ ws) (n ∷ ns) size suffix e =
      let after = suffix_head t (suc l) w ws suffix in
      let bound = lt_of_get_elem? t.widths (suc l) after in
      let (cost', hop_eq, rest) = >>=-eq-some (hop t l cost from n) _ e in
      let (edge, edge_eq, rest') = >>=-eq-some (edge_weight t (as_u32 l) from n) _ hop_eq in
      let (x, x_eq, last) = >>=-eq-some (node_cost t (l + 1) n) _ rest' in
      (
        node_cost-lt t (suc l) n w x v (omega arith) after
            (ap (λ k. node_cost t k n) (sym (add-one l)) ∙ x_eq),
        hops-InRange (suc l) cost' n c ws ns (omega arith) (suffix_tail t (suc l) w ws suffix) rest,
      )

  path_from-some :
      (ws : List ℕ) (ns : List NodeId)
      → 0 < length ws
      → fully_resolved t ≡ true
      → Suffix t 0 ws
      → InRange ws ns
      → (c : ℕ) × (path_cost t ns ≡ some c)
  unfolding path_cost
  path_from-some [] ns wide done suffix inside = absurd (omega arith)
  path_from-some (w ∷ ws) [] wide done suffix inside = absurd inside
  path_from-some (w ∷ ws) (n ∷ ns) wide done suffix inside =
      let first = suffix_head t 0 w ws suffix in
      let (x, x_eq) = node_cost-some t 0 n w v (omega arith) first inside.0 in
      let (c, c_eq) =
        hops-some 0 x n w ws ns done first inside.0 (suffix_tail t 0 w ws suffix) inside.1 in
      (c, rw x_eq c_eq)

  path_from-InRange :
      (ws : List ℕ) (ns : List NodeId) (c : ℕ)
      → length ns ≡ length ws
      → Suffix t 0 ws
      → path_cost t ns ≡ some c
      → InRange ws ns
  unfolding path_cost
  path_from-InRange [] [] c size suffix e = tt
  path_from-InRange [] (n ∷ ns) c size suffix e = absurd (omega arith)
  path_from-InRange (w ∷ ws) [] c size suffix e = absurd (omega arith)
  path_from-InRange (w ∷ ws) (n ∷ ns) c size suffix e =
      let (x, x_eq, rest) = >>=-eq-some (node_cost t 0 n) _ e in
      (
        node_cost-lt t 0 n w x v (omega arith) (suffix_head t 0 w ws suffix) x_eq,
        hops-InRange 0 x n c ws ns (omega arith) (suffix_tail t 0 w ws suffix) rest,
      )

  whole : Suffix t 0 t.widths
  whole i = ap (get_elem? t.widths) (zero_plus i)
    where
      zero_plus : (n : ℕ) → 0 + n ≡ n
      zero_plus n = omega arith

  -- A path with a node within each layer has a price, if every boundary is resolved.
  pub path_cost-some :
      (ns : List NodeId)
      → fully_resolved t ≡ true
      → InRange t.widths ns
      → (c : ℕ) × (path_cost t ns ≡ some c)
  path_cost-some ns done inside = path_from-some t.widths ns v.has_layer done whole inside

  -- A path that has a price, with as many nodes as layers, has a node within each.
  pub path_cost-InRange :
      (ns : List NodeId) (c : ℕ)
      → length ns ≡ layers t
      → path_cost t ns ≡ some c
      → InRange t.widths ns
  path_cost-InRange ns c size e = path_from-InRange t.widths ns c size whole e
