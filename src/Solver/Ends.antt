-- ===== src/Solver/Ends.antt =====
-- The live paths of a resolved trellis are those that backtracking gives from the live nodes of its last layer
-- (libs/routers_trellis/src/solver/viterbi.rs).
use mathlib.Core.List.{Memᴰ, reverse}
use mathlib.Core.Option.{some-injective}
use routers.Common.{
  ℕ, suc, ◌+◌, ◌-◌, ◌≤◌, ◌<◌, ◌≡◌, refl, ap, ◌∙◌, sym, subst, List, [], ◌∷◌, ◌++◌, some, append-nil,
  arith, length, get_elem?, get_elem?-append, u32_mod, as_u32_of_lt, reverse_snoc, reverse_cons,
  length-reverse, length-append, Range, slice,
}
use routers.Common.Outcome.{ok, ok-injective}
use routers.Trellis.Types.{NodeId, inf_w}
use routers.Trellis.Graph.{Trellis, layers}
use routers.Solver.Forward.{Boundary}
use routers.Solver.Viterbi.{trace_back}
use routers.Solver.Convergence.{live_nodes}
use routers.Solver.Traces.{Traces}
use routers.Solver.Sweep.{AreNumbered}
use routers.Solver.Living.{live_nodes_sound, live_nodes_complete, get_elem?-reverse}
use routers.Solver.Stages.{Stage, row, table, length-row}
use routers.Solver.Flat.{cur_range, stage_boundary, stage_boundaries, slice-table}
use routers.Solver.Backtrack.{top_word, trace_back-Reaches}
use routers.Solver.View.{Shows}
use routers.Solver.Price.{Reaches-length}
use routers.Solver.Correct.{tables-stages}
use routers.Solver.LivePaths.{IsLivePath}

pub length-stage_boundaries :
    (first : List ℕ) (ss : List Stage) → length (stage_boundaries first ss) ≡ length ss
unfolding stage_boundaries
length-stage_boundaries first [] = refl
length-stage_boundaries first (s ∷ ss) = omega (
  arith,
  length-append (stage_boundaries first ss) (stage_boundary first s ss ∷ []),
  length-stage_boundaries first ss,
)

pub length-steps :
    (first : List ℕ) (ss : List Stage) → length (reverse (stage_boundaries first ss)) ≡ length ss
length-steps first ss =
    length-reverse (stage_boundaries first ss) ∙ length-stage_boundaries first ss

pub steps-AreNumbered :
    (first : List ℕ) (ss : List Stage)
    → length ss < u32_mod
    → AreNumbered (reverse (stage_boundaries first ss))
unfolding stage_boundaries
steps-AreNumbered first [] small = tt
steps-AreNumbered first (s ∷ ss) small =
    rw (reverse_snoc (stage_boundaries first ss) (stage_boundary first s ss)) (
      as_u32_of_lt (length ss) (omega arith) ∙ sym (length-steps first ss),
      steps-AreNumbered first ss (omega arith),
    )

module _ (t : Trellis) (first : List ℕ) (ss : List Stage) (v : Shows t first ss)
    (small : layers t < u32_mod) where
  pub slice-row : slice (table first ss) (cur_range first ss) ≡ some (row first ss)
  slice-row =
      ap (λ xs. slice xs (cur_range first ss)) (sym (append-nil (table first ss)))
      ∙ slice-table first ss []

  -- A live node of the last layer is traced back in full.
  pub traced_full :
      (k d : ℕ)
      → get_elem? (row first ss) k ≡ some d
      → d < inf_w
      → (p : List NodeId) × Traces (table first ss) (reverse (stage_boundaries first ss)) k p
  traced_full k d at live =
      let (p, traced, r) = trace_back-Reaches first ss k d [] v.all_ok at live in
      (
        p,
        (
          ap (λ xs. trace_back (reverse (stage_boundaries first ss)) xs k)
                (sym (append-nil (table first ss)))
              ∙ traced,
          Reaches-length first r ∙ sym (length-steps first ss),
        ),
      )

  pub row_small : 0 + length (row first ss) ≤ u32_mod
  row_small = omega (arith, length-row first ss, top_word first ss v.all_ok)

  -- A live path is that of a live node, and the other way round.
  pub to_live_path :
      (n : NodeId) (p : List NodeId)
      → Memᴰ n (live_nodes 0 (row first ss))
      → Traces (table first ss) (reverse (stage_boundaries first ss)) n p
      → IsLivePath t (reverse p ++ (n ∷ []))
  to_live_path n p n_in traced =
      let (k, n_eq, c, at, live) = live_nodes_sound 0 (row first ss) n row_small n_in in
      record {
        steps = stage_boundaries first ss;
        last = cur_range first ss;
        dist = table first ss;
        tables_eq = tables-stages t first ss v small;
        costs = row first ss;
        costs_eq = slice-row;
        final = n;
        cost = c;
        cost_eq = ap (get_elem? (row first ss)) (n_eq ∙ zero_plus k) ∙ at;
        live = live;
        back = p;
        traced = traced.0;
        nodes_eq = refl;
      }
    where
      zero_plus : (i : ℕ) → 0 + i ≡ i
      zero_plus i = omega arith

  pub record Ends (ns : List NodeId) : Type 0 where
    pub final : NodeId
    pub back : List NodeId
    pub final_in : Memᴰ final (live_nodes 0 (row first ss))
    pub traced : Traces (table first ss) (reverse (stage_boundaries first ss)) final back
    pub nodes_eq : ns ≡ reverse back ++ (final ∷ [])

  pub from_live_path : (ns : List NodeId) → IsLivePath t ns → Ends ns
  from_live_path ns h =
      let same : (h.steps, h.last, h.dist)
          ≡ (stage_boundaries first ss, cur_range first ss, table first ss) =
        ok-injective (h.steps, h.last, h.dist)
          (stage_boundaries first ss, cur_range first ss, table first ss)
          (sym h.tables_eq ∙ tables-stages t first ss v small) in
      let costs_same : h.costs ≡ row first ss = some-injective h.costs (row first ss) (
        sym h.costs_eq
        ∙ ap (λ (x : List Boundary × Range × List ℕ). slice x.2 x.1) same
        ∙ slice-row) in
      let at : get_elem? (row first ss) h.final ≡ some h.cost =
        ap (λ xs. get_elem? xs h.final) (sym costs_same) ∙ h.cost_eq in
      let (p, full) = traced_full h.final h.cost at h.live in
      let traced : trace_back (reverse (stage_boundaries first ss)) (table first ss) h.final
          ≡ ok h.back =
        ap (λ (x : List Boundary × Range × List ℕ). trace_back (reverse x.0) x.2 h.final) (sym same)
        ∙ h.traced in
      let back_same : p ≡ h.back = ok-injective p h.back (sym full.0 ∙ traced) in
      record {
        final = h.final;
        back = h.back;
        final_in =
            subst (λ i. Memᴰ i (live_nodes 0 (row first ss))) (zero_plus h.final)
              (live_nodes_complete 0 (row first ss) h.final h.cost row_small at h.live);
        traced = (traced, ap length (sym back_same) ∙ full.1);
        nodes_eq = h.nodes_eq;
      }
    where
      zero_plus : (i : ℕ) → 0 + i ≡ i
      zero_plus i = omega arith

  -- The node of a path at a layer, counted from the start and from the end.
  pub at_layer :
      (n : NodeId) (p : List NodeId) (l : ℕ)
      → length p ≡ length (reverse (stage_boundaries first ss))
      → l < length ss
      → get_elem? (reverse p ++ (n ∷ [])) l
        ≡ get_elem? p (length (reverse (stage_boundaries first ss)) - 1 - l)
  at_layer n p l size h =
      ap (λ xs. get_elem? xs l) (sym (reverse_cons n p))
      ∙ get_elem?-reverse (n ∷ p) l (omega (arith, size, length-steps first ss))
      ∙ ap (get_elem? (n ∷ p)) (
          index (length p) (length (reverse (stage_boundaries first ss))) size
            (omega (arith, length-steps first ss)))
    where
      index : (a b : ℕ) → a ≡ b → l < b → suc a - 1 - l ≡ suc (b - 1 - l)
      index a b e q = omega (arith, e)

  pub at_last :
      (n : NodeId) (p : List NodeId) (l : ℕ)
      → length p ≡ length (reverse (stage_boundaries first ss))
      → l ≡ length ss
      → get_elem? (reverse p ++ (n ∷ [])) l ≡ some n
  at_last n p l size e =
      ap (get_elem? (reverse p ++ (n ∷ [])))
        (e ∙ sym (length-reverse p ∙ size ∙ length-steps first ss))
      ∙ get_elem?-append (reverse p) n []
