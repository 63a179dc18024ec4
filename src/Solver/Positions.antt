-- ===== src/Solver/Positions.antt =====
-- The positioned boundaries that the solver collects are those of the stages.
use mathlib.Core.List.{zip, map-append}
use routers.Common.{
  ℕ, zero, suc, ◌+◌, ◌<◌, ◌≡◌, refl, ap, ap₂, ◌∙◌, sym, List, [], ◌∷◌, ◌++◌, map, some, arith,
  length, drop, length-append, length-map, Range, as_u32, as_u32_of_lt, u32_mod, slice,
}
use routers.Common.Outcome.{ok, >>=-eq-ok, ok-injective}
use routers.Trellis.Types.{LayerId}
use routers.Trellis.Graph.{
  Trellis, sum, range_from, ranges_from, layer, layer_ranges, boundaries as boundary_ids,
}
use routers.Trellis.Valid.Slots.{sum-append}
use routers.Solver.Forward.{Boundary}
use routers.Solver.Viterbi.{boundary, collect, boundaries, last_range}
use routers.Solver.Stages.{Stage, flat_nodes, flat_widths}
use routers.Solver.Flat.{cur_range, stage_boundary, stage_boundaries}
use routers.Solver.View.{
  Within, Shows, Shows-Within, Within-pred, Within-transition, Within-nodes,
  length-flat_transitions,
}

range_from_snoc : (i n k : ℕ) → k ≡ i + n → range_from i (suc n) ≡ range_from i n ++ (k ∷ [])
unfolding range_from
range_from_snoc i zero k e = ap (λ m. m ∷ []) (omega arith)
range_from_snoc i (suc n) k e = ap (◌∷◌ i) (range_from_snoc (suc i) n k (omega arith))

length-range_from : (i n : ℕ) → length (range_from i n) ≡ n
unfolding range_from
length-range_from i zero = refl
length-range_from i (suc n) = ap suc (length-range_from (suc i) n)

zip_snoc :
    {A B : Type 0} (xs : List A) (ys : List B) (x : A) (y : B)
    → length xs ≡ length ys
    → zip (xs ++ (x ∷ [])) (ys ++ (y ∷ [])) ≡ zip xs ys ++ ((x, y) ∷ [])
unfolding zip
zip_snoc [] [] x y e = refl
zip_snoc [] (b ∷ ys) x y e = absurd (omega arith)
zip_snoc (a ∷ xs) [] x y e = absurd (omega arith)
zip_snoc (a ∷ xs) (b ∷ ys) x y e = ap (◌∷◌ (a, b)) (zip_snoc xs ys x y (omega arith))

-- Neighbours.
abbrev adjacent : List Range → List (Range × Range)
adjacent rs = zip rs (drop 1 rs)

adjacent_snoc :
    (rs : List Range) (a b : Range)
    → adjacent ((rs ++ (a ∷ [])) ++ (b ∷ [])) ≡ adjacent (rs ++ (a ∷ [])) ++ ((a, b) ∷ [])
unfolding zip
adjacent_snoc [] a b = refl
adjacent_snoc (r ∷ []) a b = refl
adjacent_snoc (r ∷ s ∷ rs) a b = ap (◌∷◌ (r, s)) (adjacent_snoc (s ∷ rs) a b)

ranges_from_snoc :
    (start : ℕ) (ws : List ℕ) (w stop : ℕ)
    → stop ≡ start + sum ws
    → ranges_from start (ws ++ (w ∷ []))
      ≡ ranges_from start ws ++ (record { start = stop; stop = stop + w } ∷ [])
unfolding ranges_from
ranges_from_snoc start [] w stop e = ap (λ n. record { start = n; stop = n + w } ∷ []) (omega arith)
ranges_from_snoc start (v ∷ ws) w stop e =
    ap (◌∷◌ (record { start = start; stop = start + v }))
      (ranges_from_snoc (start + v) ws w stop (omega arith))

last_range_snoc : (rs : List Range) (r : Range) → last_range (rs ++ (r ∷ [])) ≡ r
unfolding last_range
last_range_snoc [] r = refl
last_range_snoc (a ∷ []) r = refl
last_range_snoc (a ∷ b ∷ rs) r = last_range_snoc (b ∷ rs) r

pub boundary_resolved :
    (t : Trellis) (id : LayerId) (cur next : Range) {ws nodes : List ℕ}
    → layer t id ≡ some ws
    → slice t.nodes next ≡ some nodes
    → boundary t id cur next
      ≡ ok (record { id = id; cur = cur; next = next; weights = ws; node_weights = nodes })
unfolding boundary
boundary_resolved t id cur next e f = rw (e, boundary) (rw f)

collect_snoc :
    (t : Trellis) (xs : List (LayerId × (Range × Range))) (y : LayerId × (Range × Range))
    (bs : List Boundary) (b : Boundary)
    → collect t xs ≡ ok bs
    → boundary t y.0 y.1.0 y.1.1 ≡ ok b
    → collect t (xs ++ (y ∷ [])) ≡ ok (bs ++ (b ∷ []))
unfolding collect
collect_snoc t [] y bs b p q = rw q (ap (λ l. ok (l ++ (b ∷ []))) (ok-injective [] bs p))
collect_snoc t (x ∷ xs) y bs b p q =
    let (c, found, rest) = >>=-eq-ok (boundary t x.0 x.1.0 x.1.1) _ p in
    let (cs, others, same) = >>=-eq-ok (collect t xs) _ rest in
    rw (found, collect_snoc t xs y cs b others q)
      (ap (λ l. ok (l ++ (b ∷ []))) (ok-injective (c ∷ cs) bs same))

module _ (first : List ℕ) where
  abbrev next_range : Stage → List Stage → Range
  next_range s ss = record {
    start = length (flat_nodes first ss);
    stop = length (flat_nodes first ss) + length s.nodes;
  }

  pub sum-flat_widths :
      (ss : List Stage) → sum (flat_widths first ss) ≡ length (flat_nodes first ss)
  unfolding flat_widths flat_nodes
  sum-flat_widths [] = omega arith
  sum-flat_widths (s ∷ ss) = omega (
    arith,
    sum-append (flat_widths first ss) (length s.nodes ∷ []),
    length-append (flat_nodes first ss) s.nodes,
    sum-flat_widths ss,
  )

  -- The ranges of all layers but the top one.
  lower_ranges : List Stage → List Range
  lower_ranges [] = []
  lower_ranges (s ∷ ss) = lower_ranges ss ++ (cur_range first ss ∷ [])

  -- The range of a stage as the layer entered and as the layer left.
  cur-next_range : (s : Stage) (ss : List Stage) → next_range s ss ≡ cur_range first (s ∷ ss)
  unfolding flat_nodes
  cur-next_range s ss =
      ap₂ (λ a b. record { start = a; stop = b })
        (omega (arith, length-append (flat_nodes first ss) s.nodes))
        (omega (arith, length-append (flat_nodes first ss) s.nodes))

  ranges-stages :
      (ss : List Stage)
      → ranges_from 0 (flat_widths first ss) ≡ lower_ranges ss ++ (cur_range first ss ∷ [])
  unfolding lower_ranges flat_widths ranges_from
  ranges-stages [] = first_range
    where
      first_range : ranges_from 0 (length first ∷ []) ≡ (cur_range first [] ∷ [])
      first_range =
          unfold flat_nodes ranges_from in
          ap₂ (λ a b. record { start = a; stop = b } ∷ []) (omega arith) (omega arith)
  ranges-stages (s ∷ ss) =
      ranges_from_snoc 0 (flat_widths first ss) (length s.nodes) (length (flat_nodes first ss))
        (omega (arith, sum-flat_widths ss))
      ∙ ap₂ (λ rs r. rs ++ (r ∷ [])) (ranges-stages ss) (cur-next_range s ss)

  -- The pairs of ranges that `boundaries` zips with the ids.
  range_pairs : List Stage → List (Range × Range)
  range_pairs [] = []
  range_pairs (s ∷ ss) = range_pairs ss ++ ((cur_range first ss, next_range s ss) ∷ [])

  length-range_pairs : (ss : List Stage) → length (range_pairs ss) ≡ length ss
  unfolding range_pairs
  length-range_pairs [] = refl
  length-range_pairs (s ∷ ss) = omega (
    arith,
    length-append (range_pairs ss) ((cur_range first ss, next_range s ss) ∷ []),
    length-range_pairs ss,
  )

  adjacent-stages :
      (ss : List Stage) → adjacent (lower_ranges ss ++ (cur_range first ss ∷ [])) ≡ range_pairs ss
  unfolding lower_ranges range_pairs zip
  adjacent-stages [] = refl
  adjacent-stages (s ∷ ss) =
      adjacent_snoc (lower_ranges ss) (cur_range first ss) (cur_range first (s ∷ ss))
      ∙ ap₂ (λ ps r. ps ++ ((cur_range first ss, r) ∷ [])) (adjacent-stages ss)
          (sym (cur-next_range s ss))

  pub last_range-stages :
      (ss : List Stage) → last_range (ranges_from 0 (flat_widths first ss)) ≡ cur_range first ss
  last_range-stages ss =
      ap last_range (ranges-stages ss) ∙ last_range_snoc (lower_ranges ss) (cur_range first ss)

  module _ (t : Trellis) where
    boundary-stage :
        (s : Stage) (ss : List Stage)
        → Within t first (s ∷ ss)
        → length ss < u32_mod
        → boundary t (as_u32 (length ss)) (cur_range first ss) (next_range s ss)
          ≡ ok (stage_boundary first s ss)
    unfolding boundary layer
    boundary-stage s ss v small =
        boundary_resolved t (as_u32 (length ss)) (cur_range first ss) (next_range s ss)
          (rw (as_u32_of_lt (length ss) small, Within-transition t first s ss v) refl)
          (Within-nodes t first s ss (next_range s ss) v refl refl)

    collect-stages :
        (ss : List Stage)
        → Within t first ss
        → length ss < u32_mod
        → collect t (zip (map as_u32 (range_from 0 (length ss))) (range_pairs ss))
          ≡ ok (stage_boundaries first ss)
    unfolding collect range_pairs stage_boundaries range_from zip
    collect-stages [] v small = refl
    collect-stages (s ∷ ss) v small =
        ap (collect t) (
          ap (λ l. zip l (range_pairs (s ∷ ss)))
            (ap (map as_u32) (range_from_snoc 0 (length ss) (length ss) (omega arith))
              ∙ map-append as_u32 (range_from 0 (length ss)) (length ss ∷ []))
          ∙ zip_snoc (map as_u32 (range_from 0 (length ss))) (range_pairs ss) (as_u32 (length ss))
              (cur_range first ss, next_range s ss)
              (length-map as_u32 (range_from 0 (length ss))
                ∙ length-range_from 0 (length ss)
                ∙ sym (length-range_pairs ss)))
        ∙ collect_snoc t (zip (map as_u32 (range_from 0 (length ss))) (range_pairs ss)) _ _ _
            (collect-stages ss (Within-pred t first s ss v) (omega arith))
            (boundary-stage s ss v (omega arith))

    -- The boundaries of a resolved trellis, positioned.
    pub boundaries-stages :
        (ss : List Stage)
        → Shows t first ss
        → length ss < u32_mod
        → boundaries t ≡ ok (stage_boundaries first ss)
    unfolding boundaries boundary_ids layer_ranges
    boundaries-stages ss v small =
        ap (collect t) (
          ap₂ zip
            (ap (λ n. map as_u32 (range_from 0 n))
              (ap length v.all_transitions ∙ length-flat_transitions t first ss))
            (ap (λ ws. adjacent (ranges_from 0 ws)) v.all_widths
              ∙ (ap adjacent (ranges-stages ss) ∙ adjacent-stages ss)))
        ∙ collect-stages ss (Shows-Within t first ss v) small
