-- ===== src/Solver/Correct.antt =====
-- What a solver promises, and that the Viterbi solver keeps it on every valid trellis.
use mathlib.Core.List.{reverse, reverse-reverse, append-nil}
use routers.Common.{
  ℕ, suc, ◌-◌, ◌≤◌, ◌<◌, ◌≡◌, refl, ap, ◌∙◌, sym, List, [], ◌∷◌, ◌++◌, some, none, arith, min,
  false, Bool-cases, inl, inr, length-reverse, reverse_cons, length, get_elem?, get_elem?-some,
  dec_lt, length-append, u32_mod, leb, slice, dec_le, le→leb,
}
use routers.Common.Outcome.{Outcome, ok, err, panic}
use routers.Trellis.Types.{NodeId, SolveError, not_resolved, unreachable, FoundPath, inf_w}
use routers.Trellis.Graph.{Trellis, layers, layer_ranges, first_pending, fully_resolved}
use routers.Trellis.Cost.{path_cost}
use routers.Trellis.Valid.{IsValid}
use routers.Solver.Forward.{forward_pass}
use routers.Solver.Viterbi.{tables, backtrack, trace_back, solve, min_pair, numbered}
use routers.Solver.Argmin.{IsMinimum}
use routers.Solver.Stages.{
  Stage, AreStages, top, row, table, flat_nodes, length-row, row-le-Reaches, Reaches, Reaches-lt,
}
use routers.Solver.Flat.{cur_range, stage_boundaries, slice-table, forward_pass-table}
use routers.Solver.Backtrack.{top_word, column-IsMinimum, trace_back-Reaches}
use routers.Solver.View.{Shows, Shows-Within, Shows-of_resolved, length-flat_widths}
use routers.Solver.Positions.{boundaries-stages, last_range-stages}
use routers.Solver.Price.{path_cost-Reaches, Reaches-path_cost, Reaches-length}
use routers.Solver.Pending.{boundaries-pending, first_pending-none}

-- A real path: one node for each layer, priced at its cost, and no path of that length is cheaper.
pub record IsBest (t : Trellis) (p : FoundPath) : Type 0 where
  pub spans : length p.nodes ≡ layers t
  pub priced : path_cost t p.nodes ≡ some p.cost
  pub finite : p.cost < inf_w
  pub least :
      (ns : List NodeId) (c : ℕ) → length ns ≡ layers t → path_cost t ns ≡ some c → p.cost ≤ c

-- The contract of `Solve::solve`.
abbrev pub Answers : Trellis → Outcome SolveError FoundPath → Type 0
Answers t (ok p) = (first_pending t ≡ none) × IsBest t p
Answers t (err (not_resolved l)) = first_pending t ≡ some l
Answers t (err unreachable) =
    (first_pending t ≡ none)
    × ((ns : List NodeId) (c : ℕ) → length ns ≡ layers t → path_cost t ns ≡ some c → inf_w ≤ c)
Answers t panic = ⊥

top_wide : (first : List ℕ) (ss : List Stage) → AreStages first ss → 0 < length (top first ss)
top_wide first [] h = h.wide
top_wide first (s ∷ ss) h = h.0.wide

lt→leb : (a b : ℕ) → b < a → leb a b ≡ false
lt→leb a b h = ground arith

module _ (t : Trellis) (first : List ℕ) (ss : List Stage) (v : Shows t first ss)
    (small : layers t < u32_mod) where
  pub layers-stages : layers t ≡ suc (length ss)
  layers-stages = ap length v.all_widths ∙ length-flat_widths t first ss

  pub tables-stages : tables t ≡ ok (stage_boundaries first ss, cur_range first ss, table first ss)
  unfolding tables layer_ranges
  tables-stages =
      let dist : forward_pass (stage_boundaries first ss) t.nodes ≡ some (table first ss) =
        ap (forward_pass (stage_boundaries first ss))
          (v.all_nodes ∙ sym (append-nil (flat_nodes first ss)))
        ∙ forward_pass-table first ss [] v.all_ok
        ∙ ap some (append-nil (table first ss)) in
      rw
        (
          boundaries-stages first t ss v (omega (arith, layers-stages)),
          dist,
          v.all_widths,
          last_range-stages first ss,
        )
        refl

  -- A priced path of full length, as a path through the stages.
  full_path :
      (ns : List NodeId) (x : ℕ)
      → length ns ≡ layers t
      → path_cost t ns ≡ some x
      → (p : List NodeId) × (j : NodeId) × (c : ℕ) × Reaches first ss (j ∷ p) c
        × (x ≡ min c (u32_mod - 1))
  full_path ns x size e = of_reverse (reverse ns) refl
    where
      of_reverse :
          (rs : List NodeId)
          → reverse ns ≡ rs
          → (p : List NodeId) × (j : NodeId) × (c : ℕ) × Reaches first ss (j ∷ p) c
            × (x ≡ min c (u32_mod - 1))
      of_reverse [] q = absurd (omega (arith, ap length q, length-reverse ns, layers-stages))
      of_reverse (j ∷ p) q =
          let (c, r, x_eq) =
            Reaches-path_cost t first ss p j x (Shows-Within t first ss v)
              (omega (arith, layers-stages))
              (omega (arith, ap length q, length-reverse ns, layers-stages))
              (ap (path_cost t) (ap reverse (sym q) ∙ reverse-reverse ns) ∙ e) in
          (p, j, c, r, x_eq)

  -- The least entry of the last row bounds every priced path from below.
  minimum-le :
      (m k : ℕ)
      → IsMinimum 0 (row first ss) m k
      → (ns : List NodeId) (x : ℕ) → length ns ≡ layers t
      → path_cost t ns ≡ some x
      → min m inf_w ≤ x
  minimum-le m k q ns x size e =
      let (p, j, c, r, x_eq) = full_path ns x size e in
      let (d, d_eq) =
        get_elem?-some (row first ss) j (omega (arith, Reaches-lt first r, length-row first ss)) in
      elim (dec_lt c inf_w) [
        | yes fin ↦ omega (arith, row-le-Reaches first d v.all_ok r d_eq fin, q.least j d d_eq)
        | no big ↦ omega arith
      ]

  pub last-IsMinimum :
      (m : ℕ) × (k : NodeId) × (min_pair (numbered 0 (row first ss)) ≡ some (m, k))
      × IsMinimum 0 (row first ss) m k
  last-IsMinimum =
      let (c, c_eq) =
        get_elem?-some (row first ss) 0
          (omega (arith, top_wide first ss v.all_ok, length-row first ss)) in
      column-IsMinimum (row first ss) 0 c_eq
        (omega (arith, top_word first ss v.all_ok, length-row first ss))

  -- The traced path is the best one.
  best :
      (m k : ℕ) (p : List NodeId)
      → IsMinimum 0 (row first ss) m k
      → Reaches first ss (k ∷ p) m
      → m < inf_w
      → IsBest t (record { nodes = reverse p ++ (k ∷ []); cost = m })
  best m k p q r fin = record {
    spans = omega (
      arith,
      length-append (reverse p) (k ∷ []),
      length-reverse p,
      Reaches-length first r,
      layers-stages,
    );
    priced =
        ap (path_cost t) (sym (reverse_cons k p))
        ∙ path_cost-Reaches t first r (Shows-Within t first ss v) (omega (arith, layers-stages))
        ∙ ap some (exact m fin);
    finite = fin;
    least = λ ns c size e. omega (arith, minimum-le m k q ns c size e);
  }
    where
      exact : (n : ℕ) → n < inf_w → min n (u32_mod - 1) ≡ n
      exact n h = omega arith

  solve-stages : first_pending t ≡ none → Answers t (solve t)
  unfolding solve backtrack
  solve-stages done =
      let (m, k, pair_eq, q) = last-IsMinimum in
      let row_eq : slice (table first ss) (cur_range first ss) ≡ some (row first ss) =
        ap (λ xs. slice xs (cur_range first ss)) (sym (append-nil (table first ss)))
        ∙ slice-table first ss [] in
      elim (dec_le inf_w m) [
        | yes big ↦
            rw (tables-stages, row_eq, pair_eq, le→leb inf_w m big)
              (done, λ ns x size e. omega (arith, minimum-le m k q ns x size e))
        | no fin ↦
            let found : get_elem? (row first ss) k ≡ some m =
              ap (get_elem? (row first ss)) (omega arith) ∙ q.found in
            let (p, traced, r) = trace_back-Reaches first ss k m [] v.all_ok found (omega arith) in
            let traced' : trace_back (reverse (stage_boundaries first ss)) (table first ss) k
                ≡ ok p =
              ap (λ xs. trace_back (reverse (stage_boundaries first ss)) xs k)
                (sym (append-nil (table first ss)))
              ∙ traced in
            rw (tables-stages, row_eq, pair_eq, lt→leb inf_w m (omega arith), traced')
              (done, best m k p q r (omega arith))
      ]

-- On a valid trellis of fewer than 2^32 layers the Viterbi solver does not panic. If a transition is
-- pending it refuses with the first one. Otherwise it returns a path with one node for each layer, whose
-- price by `path_cost` is the cost returned, below the infinity and not above the price of any path of
-- that length; or it says `Unreachable`, and every path of that length costs the infinity or more.
pub solve-Answers : (t : Trellis) → IsValid t → layers t < u32_mod → Answers t (solve t)
solve-Answers t v small = elim (Bool-cases (fully_resolved t)) [
  | inl done ↦
      let (first, ss, shown) = Shows-of_resolved t v done in
      solve-stages t first ss shown small (first_pending-none t done)
  | inr waits ↦
      let (l, pending_eq, stopped) = boundaries-pending t v small waits in
      unfold solve tables in rw stopped pending_eq
]
