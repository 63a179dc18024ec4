-- ===== src/Solver/Flat.antt =====
-- The flat table refines the stages: the forward pass over the positioned boundaries leaves the rows
-- of the stages one behind the other.
use mathlib.Core.List.{append_assoc}
use routers.Common.{
  ℕ, ◌+◌, ◌-◌, ◌≤◌, ◌<◌, ◌≡◌, refl, ap, ◌∙◌, sym, List, [], ◌∷◌, ◌++◌, Option, none, some, false,
  arith, append-nil, length, drop, length-append, drop-append, Range, slice, slice-append, as_u32,
  ◌==◌,
}
use routers.Common.Maybe.{◌>>=◌}
use routers.Solver.Forward.{Boundary, next_row, advance, forward_pass}
use routers.Solver.Stages.{Stage, AreStages, top, row, flat_nodes, table, length-row}

slice_prefix :
    (xs ys : List ℕ) {n : ℕ}
    → length xs ≡ n
    → slice (xs ++ ys) (record { start = 0; stop = n }) ≡ some xs
slice_prefix xs ys {n} e = slice-append [] xs ys (record { start = 0; stop = n }) refl (omega arith)

forward_pass-append :
    (bs cs : List Boundary) (dist : List ℕ)
    → forward_pass (bs ++ cs) dist ≡ (forward_pass bs dist >>= forward_pass cs)
unfolding forward_pass
forward_pass-append [] cs dist = refl
forward_pass-append (b ∷ bs) cs dist = split (forward_pass-append bs cs) (advance b dist)
  where
    split :
        ((d : List ℕ) → forward_pass (bs ++ cs) d ≡ (forward_pass bs d >>= forward_pass cs))
        → (m : Option (List ℕ))
        → (m >>= forward_pass (bs ++ cs)) ≡ ((m >>= forward_pass bs) >>= forward_pass cs)
    split rest none = refl
    split rest (some d) = rest d

module _ (first : List ℕ) where
  abbrev pub cur_range : List Stage → Range
  cur_range ss = record {
    start = length (flat_nodes first ss) - length (top first ss);
    stop = length (flat_nodes first ss);
  }

  -- The boundary into stage `s`, above the stages `ss`.
  abbrev pub stage_boundary : Stage → List Stage → Boundary
  stage_boundary s ss = record {
    id = as_u32 (length ss);
    cur = cur_range ss;
    next = record {
      start = length (flat_nodes first ss);
      stop = length (flat_nodes first ss) + length s.nodes;
    };
    weights = s.weights;
    node_weights = s.nodes;
  }

  unfoldable pub stage_boundaries : List Stage → List Boundary
  stage_boundaries [] = []
  stage_boundaries (s ∷ ss) = stage_boundaries ss ++ (stage_boundary s ss ∷ [])

  -- What lies below the top row in the table.
  unfoldable pub below : List Stage → List ℕ
  below [] = []
  below (s ∷ ss) = table first ss

  pub table-below : (ss : List Stage) → table first ss ≡ below ss ++ row first ss
  unfolding table below row
  table-below [] = refl
  table-below (s ∷ ss) = refl

  pub length-table : (ss : List Stage) → length (table first ss) ≡ length (flat_nodes first ss)
  unfolding table flat_nodes
  length-table [] = refl
  length-table (s ∷ ss) = omega (
    arith,
    length-append (table first ss) (row first (s ∷ ss)),
    length-append (flat_nodes first ss) s.nodes,
    length-table ss,
    length-row first (s ∷ ss),
  )

  pub length-below :
      (ss : List Stage) → length (below ss) ≡ length (flat_nodes first ss) - length (top first ss)
  length-below ss = omega (
    arith,
    ap length (table-below ss),
    length-append (below ss) (row first ss),
    length-table ss,
    length-row first ss,
  )

  pub top-le-flat : (ss : List Stage) → length (top first ss) ≤ length (flat_nodes first ss)
  unfolding flat_nodes
  top-le-flat [] = omega arith
  top-le-flat (s ∷ ss) = omega (arith, length-append (flat_nodes first ss) s.nodes)

  -- The range of the top layer holds its row, whatever follows.
  pub slice-table :
      (ss : List Stage) (future : List ℕ)
      → slice (table first ss ++ future) (cur_range ss) ≡ some (row first ss)
  slice-table ss future =
      ap (λ xs. slice xs (cur_range ss))
        (ap (λ xs. xs ++ future) (table-below ss) ∙ append_assoc (below ss) (row first ss) future)
      ∙ slice-append (below ss) (row first ss) future (cur_range ss) (sym (length-below ss))
          (omega (arith, length-below ss, length-row first ss, top-le-flat ss))

  append_rows :
      (s : Stage) (ss : List Stage) (future : List ℕ)
      → table first ss ++ (next_row (row first ss) s.weights (length s.nodes) s.nodes ++ future)
        ≡ table first (s ∷ ss) ++ future
  unfolding table row
  append_rows s ss future = sym (append_assoc (table first ss) (row first (s ∷ ss)) future)

  advance-stage :
      (s : Stage) (ss : List Stage) (future : List ℕ)
      → 0 < length s.nodes
      → advance (stage_boundary s ss) (table first ss ++ (s.nodes ++ future))
        ≡ some (table first (s ∷ ss) ++ future)
  unfolding advance
  advance-stage s ss future wide =
      let base = length (flat_nodes first ss) in
      let width : base + length s.nodes - base ≡ length s.nodes = omega arith in
      let some_width : (length s.nodes == 0) ≡ false = ground arith in
      let head : slice (table first ss ++ (s.nodes ++ future)) (record { start = 0; stop = base })
          ≡ some (table first ss) =
        slice_prefix (table first ss) (s.nodes ++ future) (length-table ss) in
      let tail : drop base (table first ss ++ (s.nodes ++ future)) ≡ s.nodes ++ future =
        ap (λ n. drop n (table first ss ++ (s.nodes ++ future))) (sym (length-table ss))
        ∙ drop-append (table first ss) (s.nodes ++ future) in
      let next : slice (s.nodes ++ future) (record { start = 0; stop = length s.nodes })
          ≡ some s.nodes =
        slice_prefix s.nodes future refl in
      let cur : slice (table first ss) (cur_range ss) ≡ some (row first ss) =
        ap (λ xs. slice xs (cur_range ss)) (sym (append-nil (table first ss)))
        ∙ slice-table ss [] in
      rw (width, some_width, head)
        (rw tail (rw (next, cur, drop-append s.nodes future) (ap some (append_rows s ss future))))

  -- Over layers with weights in range, the forward pass does not panic, leaves the row of each layer in
  -- the layer's place of the flat table, and leaves what follows alone.
  pub forward_pass-table :
      (ss : List Stage) (future : List ℕ)
      → AreStages first ss
      → forward_pass (stage_boundaries ss) (flat_nodes first ss ++ future)
        ≡ some (table first ss ++ future)
  unfolding forward_pass stage_boundaries flat_nodes table
  forward_pass-table [] future h = refl
  forward_pass-table (s ∷ ss) future h =
      forward_pass-append (stage_boundaries ss) (stage_boundary s ss ∷ [])
        (flat_nodes first (s ∷ ss) ++ future)
      ∙ rw (
        append_assoc (flat_nodes first ss) s.nodes future,
        forward_pass-table ss (s.nodes ++ future) h.1,
        advance-stage s ss future h.0.wide,
      )
