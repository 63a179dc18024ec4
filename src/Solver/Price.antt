-- ===== src/Solver/Price.antt =====
-- `path_cost` is the exact cost of the path through the stages, saturated at the largest `u32`.
use mathlib.Core.List.{reverse}
use mathlib.Core.Option.{some-injective}
use native.Mathlib.Numerals.{add-one}
use routers.Common.{
  ℕ, suc, ◌+◌, ◌-◌, ◌*◌, ◌≤◌, ◌<◌, ◌≡◌, refl, ap, ap₂, ◌∙◌, sym, List, [], ◌∷◌, ◌++◌, Option, some,
  none, arith, min, length-reverse, reverse_cons, All-get_elem?, length, get_elem?, take,
  take-append, Range, as_u32_of_lt, u32_mod, saturating_add, slice, slice-append,
}
use routers.Common.Maybe.{◌>>=◌, >>=-eq-some}
use routers.Common.Outcome.{ok, ok_or, expect}
use routers.Trellis.Types.{NodeId, max_weight}
use routers.Trellis.Graph.{
  Trellis, sum, ranges_from, layer_ranges, node_range, node_weights, node_weight,
}
use routers.Trellis.Cost.{edge_weight, node_cost, hop, hops, path_cost}
use routers.Trellis.Valid.Slots.{ranges_from-get_elem?}
use routers.Solver.Stages.{Stage, flat_nodes, flat_widths, Reaches, start, step}
use routers.Solver.Positions.{sum-flat_widths}
use routers.Solver.View.{
  Within, Within-pred, Within-transition, Within-width, Within-nodes, length-flat_widths,
}

bind_some : {A : Type 0} (m : Option A) → (m >>= some) ≡ m
bind_some none = refl
bind_some (some a) = refl

bind_assoc :
    {A B C : Type 0} (m : Option A) (f : A → Option B) (g : B → Option C)
    → ((m >>= f) >>= g) ≡ (m >>= λ a. f a >>= g)
bind_assoc none f g = refl
bind_assoc (some a) f g = refl

bind_ext :
    {A B : Type 0} (m : Option A) (f g : A → Option B)
    → ((a : A) → f a ≡ g a)
    → (m >>= f) ≡ (m >>= g)
bind_ext none f g h = refl
bind_ext (some a) f g h = h a

-- The last hop of a longer walk.
hops_snoc :
    (t : Trellis) (l c from : ℕ) (xs : List NodeId) (i j k : ℕ)
    → k ≡ l + suc (length xs)
    → hops t l c from ((xs ++ (i ∷ [])) ++ (j ∷ []))
      ≡ (hops t l c from (xs ++ (i ∷ [])) >>= λ c'. hop t k c' i j)
unfolding hops
hops_snoc t l c from [] i j k e =
    bind_ext (hop t l c from i) _ _
      (λ c'. bind_some (hop t (suc l) c' i j) ∙ ap (λ m. hop t m c' i j) (omega arith))
    ∙ sym (bind_assoc (hop t l c from i) some _)
hops_snoc t l c from (x ∷ xs) i j k e =
    bind_ext (hop t l c from x) _ _ (λ c'. hops_snoc t (suc l) c' x xs i j k (omega arith))
    ∙ sym (bind_assoc (hop t l c from x) _ _)

path_cost_snoc :
    (t : Trellis) (xs : List NodeId) (i j : ℕ)
    → path_cost t ((xs ++ (i ∷ [])) ++ (j ∷ []))
      ≡ (path_cost t (xs ++ (i ∷ [])) >>= λ c. hop t (length xs) c i j)
unfolding path_cost hops
path_cost_snoc t [] i j =
    bind_ext (node_cost t 0 i) _ _ (λ c. bind_some (hop t 0 c i j))
    ∙ sym (bind_assoc (node_cost t 0 i) some _)
path_cost_snoc t (x ∷ xs) i j =
    bind_ext (node_cost t 0 x) _ _ (λ c. hops_snoc t 0 c x xs i j (suc (length xs)) (omega arith))
    ∙ sym (bind_assoc (node_cost t 0 x) _ _)

expect-ok_or : (o : Option ℕ) → expect (ok_or {E = Unit {0}} o tt) ≡ o
expect-ok_or none = refl
expect-ok_or (some a) = refl

node_weights_at :
    (t : Trellis) (l : ℕ) {r : Range} {ws : List ℕ}
    → get_elem? (ranges_from 0 t.widths) l ≡ some r
    → slice t.nodes r ≡ some ws
    → node_weights t l ≡ ok ws
unfolding node_weights node_range layer_ranges
node_weights_at t l p q = rw (p, node_weights) (rw q refl)

-- A node's cost, once its layer's weights are known.
node_cost_at :
    (t : Trellis) (l : ℕ) (j : NodeId) {r : Range} {ws : List ℕ}
    → l < u32_mod
    → get_elem? (ranges_from 0 t.widths) l ≡ some r
    → slice t.nodes r ≡ some ws
    → node_cost t l j ≡ get_elem? ws j
unfolding node_cost node_weight
node_cost_at t l j {ws} h p q =
    rw (as_u32_of_lt l h)
      (rw (node_weights_at t l p q, node_weight) (expect-ok_or (get_elem? ws j)))

path_cost-reverse :
    (t : Trellis) (j i : ℕ) (p : List NodeId)
    → path_cost t (reverse (j ∷ i ∷ p))
      ≡ (path_cost t (reverse (i ∷ p)) >>= λ c. hop t (length p) c i j)
path_cost-reverse t j i p =
    ap (path_cost t) (reverse_cons j (i ∷ p) ∙ ap (λ l. l ++ (j ∷ [])) (reverse_cons i p))
    ∙ path_cost_snoc t (reverse p) i j
    ∙ ap₂ (λ l n. path_cost t l >>= λ c. hop t n c i j) (sym (reverse_cons i p)) (length-reverse p)

word_cost : (w : ℕ) → w ≤ max_weight → w ≡ min w (u32_mod - 1)
word_cost w h = omega arith

saturate_step :
    (c e w : ℕ)
    → saturating_add (saturating_add (min c (u32_mod - 1)) e) w ≡ min (c + e + w) (u32_mod - 1)
unfolding saturating_add
saturate_step c e w = omega arith

pub Reaches-length :
    (first : List ℕ) {ss : List Stage} {p : List NodeId} {j c : ℕ}
    → Reaches first ss (j ∷ p) c
    → length p ≡ length ss
Reaches-length first (start e) = refl
Reaches-length first (step r e f) = ap suc (Reaches-length first r)

module _ (t : Trellis) (first : List ℕ) where
  -- The nodes' weights of the layer that a stage enters, and of the first one.
  node_cost-stage :
      (s : Stage) (ss : List Stage) (j : NodeId)
      → Within t first (s ∷ ss)
      → suc (length ss) < u32_mod
      → node_cost t (suc (length ss)) j ≡ get_elem? s.nodes j
  node_cost-stage s ss j v small =
      let w = Within-pred t first s ss v in
      let (r, found, from, to) =
        ranges_from-get_elem? 0 t.widths (suc (length ss)) (Within-width t first s ss v) in
      let lower : take (suc (length ss)) t.widths ≡ flat_widths first ss =
        ap (take (suc (length ss))) w.widths_eq
        ∙ ap (λ n. take n (flat_widths first ss ++ w.later_widths))
            (sym (length-flat_widths t first ss))
        ∙ take-append (flat_widths first ss) w.later_widths in
      let at : r.start ≡ length (flat_nodes first ss) =
        omega (arith, ap sum lower, sum-flat_widths first ss) in
      node_cost_at t (suc (length ss)) j small found
        (Within-nodes t first s ss r v at (omega arith))

  node_cost-first : (j : NodeId) → Within t first [] → node_cost t 0 j ≡ get_elem? first j
  unfolding flat_widths flat_nodes
  node_cost-first j v =
      let (r, found, from, to) =
        ranges_from-get_elem? 0 t.widths 0 {w = length first}
          (ap (λ ws. get_elem? ws 0) v.widths_eq) in
      node_cost_at t 0 j (omega arith) found (
        ap (λ xs. slice xs r) v.nodes_eq
        ∙ slice-append [] first v.later_nodes r (omega arith) (omega arith))

  path_cost-first : (j : NodeId) → Within t first [] → path_cost t (j ∷ []) ≡ get_elem? first j
  unfolding path_cost hops
  path_cost-first j v = bind_some (node_cost t 0 j) ∙ node_cost-first j v

  -- One hop is the stage's edge and node weight, added with saturation.
  hop-stage :
      (s : Stage) (ss : List Stage) (c i j : ℕ)
      → Within t first (s ∷ ss)
      → suc (length ss) < u32_mod
      → hop t (length ss) c i j ≡ (
          get_elem? s.weights (i * length s.nodes + j) >>= λ e.
          get_elem? s.nodes j >>= λ w. some (saturating_add (saturating_add c e) w))
  unfolding hop edge_weight
  hop-stage s ss c i j v small =
      rw
        (
          as_u32_of_lt (length ss) (omega arith),
          add-one,
          Within-width t first s ss v,
          Within-transition t first s ss v,
          node_cost-stage s ss j v small,
        )
        refl

  -- A path through the stages is priced at its exact cost, saturated.
  pub path_cost-Reaches :
      {ss : List Stage} {p : List NodeId} {j c : ℕ}
      → Reaches first ss (j ∷ p) c
      → Within t first ss
      → length ss < u32_mod
      → path_cost t (reverse (j ∷ p)) ≡ some (min c (u32_mod - 1))
  path_cost-Reaches (start {j} {w} e) v small =
      path_cost-first j v
      ∙ e
      ∙ ap some (word_cost w (All-get_elem? _ first j v.stages_ok.nodes_ok e))
  path_cost-Reaches (step {s} {ss} {p} {i} {j} {c} {e} {w} r edge_eq weight_eq) v small =
      path_cost-reverse t j i p
      ∙ rw
          (
            path_cost-Reaches r (Within-pred t first s ss v) (omega arith),
            Reaches-length first r,
            hop-stage s ss (min c (u32_mod - 1)) i j v small,
            edge_eq,
            weight_eq,
          )
          (ap some (saturate_step c e w))

  -- And every path of the right length that has a price is a path through the stages.
  pub Reaches-path_cost :
      (ss : List Stage) (p : List NodeId) (j x : ℕ)
      → Within t first ss
      → length ss < u32_mod
      → length p ≡ length ss
      → path_cost t (reverse (j ∷ p)) ≡ some x
      → (c : ℕ) × Reaches first ss (j ∷ p) c × (x ≡ min c (u32_mod - 1))
  Reaches-path_cost [] [] j x v small size e =
      let at : get_elem? first j ≡ some x = sym (path_cost-first j v) ∙ e in
      (x, start at, word_cost x (All-get_elem? _ first j v.stages_ok.nodes_ok at))
  Reaches-path_cost [] (i ∷ p) j x v small size e = absurd (omega arith)
  Reaches-path_cost (s ∷ ss) [] j x v small size e = absurd (omega arith)
  Reaches-path_cost (s ∷ ss) (i ∷ p) j x v small size e =
      let (y, before, last) =
        >>=-eq-some (path_cost t (reverse (i ∷ p))) _ (sym (path_cost-reverse t j i p) ∙ e) in
      let (c, r, y_eq) =
        Reaches-path_cost ss p i y (Within-pred t first s ss v) (omega arith) (omega arith)
          before in
      let size' : length p ≡ length ss = omega arith in
      let hop_eq : hop t (length ss) y i j ≡ some x = ap (λ n. hop t n y i j) (sym size') ∙ last in
      let (edge, edge_eq, rest) =
        >>=-eq-some (get_elem? s.weights (i * length s.nodes + j)) _
          (sym (hop-stage s ss y i j v small) ∙ hop_eq) in
      let (w, weight_eq, same) = >>=-eq-some (get_elem? s.nodes j) _ rest in
      (
        c + edge + w,
        step r edge_eq weight_eq,
        sym (some-injective _ _ same)
            ∙ ap (λ n. saturating_add (saturating_add n edge) w) y_eq
            ∙ saturate_step c edge w,
      )
