-- ===== src/Solver/Backtrack.antt =====
-- Backtracking through the table finds, for a node of finite cost, a path of exactly that cost.
use mathlib.Core.List.{reverse}
use routers.Common.{
  ℕ, ◌+◌, ◌-◌, ◌*◌, ◌≤◌, ◌<◌, ◌≡◌, inl, inr, refl, ap, subst, ◌∙◌, sym, List, [], ◌∷◌, ◌++◌, Option,
  some, false, arith, append_assoc, reverse_snoc, length, drop, get_elem?, get_elem?-some,
  lt_of_get_elem?, saturating_add, saturating_add_bounds, saturating_add_of_lt, u32_mod,
  if◌then◌else◌, ◌==◌, ltb,
}
use mathlib.Core.Option.{some-injective}
use routers.Common.Outcome.{ok}
use routers.Trellis.Types.{NodeId, inf_w}
use routers.Solver.Forward.{Boundary}
use routers.Solver.Viterbi.{predecessor, trace_back, column_costs, numbered, min_pair}
use routers.Solver.Relax.{Enters, IsLeast}
use routers.Solver.Argmin.{
  IsMinimum, min_pair-IsMinimum, column_costs-get_elem?, length-column_costs-le,
}
use routers.Solver.Stages.{
  Stage, AreStages, top, row, table, flat_nodes, length-row, stage_row, Reaches, start, step,
}
use routers.Solver.Flat.{stage_boundary, stage_boundaries, slice-table}

-- A column with an entry has a minimum.
pub column-IsMinimum :
    (cs : List ℕ) (i : ℕ) {c : ℕ}
    → get_elem? cs i ≡ some c
    → length cs ≤ u32_mod
    → (m : ℕ) × (k : NodeId) × (min_pair (numbered 0 cs) ≡ some (m, k)) × IsMinimum 0 cs m k
column-IsMinimum [] i e h = absurd (ground arith)
column-IsMinimum (c ∷ cs) i e h = min_pair-IsMinimum c cs h

cell_below : (k below n j : ℕ) → k < below → j < n → k * n + j < below * n
cell_below k below n j p q = grind arith

-- A saturated sum below the infinity is exact.
sum_exact : (c e m d : ℕ) → saturating_add c e ≡ m → m ≤ d → d < inf_w → (c + e ≡ m) × (c < inf_w)
unfolding saturating_add
sum_exact c e m d p h q = omega arith

minus_zero : (k : ℕ) → k ≡ k - 0
minus_zero k = omega arith

finite_parts :
    (d d0 w : ℕ)
    → d ≡ (if ltb d0 inf_w then d0 + w else d0)
    → d < inf_w
    → (d0 < inf_w) × (d ≡ d0 + w)
finite_parts d d0 w e h = ground arith

trace_back_step :
    (b : Boundary) (bs : List Boundary) (dist : List ℕ) (j i : NodeId) {p : List NodeId}
    → predecessor b dist j ≡ ok i
    → trace_back bs dist i ≡ ok p
    → trace_back (b ∷ bs) dist j ≡ ok (i ∷ p)
unfolding trace_back
trace_back_step b bs dist j i e f = rw (e, trace_back) (rw f)

module _ (first : List ℕ) where
  -- What the predecessor of a live node satisfies: the sum over its edge is the least.
  pub record IsPredecessor (s : Stage) (ss : List Stage) (j d i : ℕ) : Type 0 where
    pub cost : ℕ
    pub edge : ℕ
    pub weight : ℕ
    pub cost_eq : get_elem? (row first ss) i ≡ some cost
    pub edge_eq : get_elem? s.weights (i * length s.nodes + j) ≡ some edge
    pub weight_eq : get_elem? s.nodes j ≡ some weight
    pub live : cost < inf_w
    pub sum_eq : d ≡ cost + edge + weight
    pub lowest :
        (k c e : ℕ)
        → Enters (length s.nodes) (row first ss) s.weights j k c e
        → c + e ≡ cost + edge
        → i ≤ k

  pub top_word : (ss : List Stage) → AreStages first ss → length (top first ss) < u32_mod
  top_word [] h = h.word
  top_word (s ∷ ss) h = h.0.word

  module _ (s : Stage) (ss : List Stage) (j : ℕ) (h : AreStages first (s ∷ ss)) where
    column : List ℕ
    column = column_costs (length s.nodes) (row first ss) (drop j s.weights)

    column_entry :
        (i : ℕ) {c e : ℕ}
        → Enters (length s.nodes) (row first ss) s.weights j i c e
        → get_elem? column i ≡ some (saturating_add c e)
    unfolding column
    column_entry i x =
        column_costs-get_elem? (length s.nodes) (row first ss) s.weights j i x.cost_eq x.edge_eq

    column_word : length column ≤ u32_mod
    unfolding column
    column_word = omega (
      arith,
      length-column_costs-le (length s.nodes) (row first ss) (drop j s.weights),
      length-row first ss,
      top_word ss h.1,
    )

    length-column : length column ≤ length (row first ss)
    unfolding column
    length-column = length-column_costs-le (length s.nodes) (row first ss) (drop j s.weights)

    column_at :
        (k : ℕ)
        → get_elem? (column_costs (length s.nodes) (row first ss) (drop j s.weights)) k
          ≡ get_elem? column (k - 0)
    unfolding column
    column_at k =
        ap (get_elem? (column_costs (length s.nodes) (row first ss) (drop j s.weights)))
          (minus_zero k)

    column_pair :
        {r : Option (ℕ × NodeId)}
        → min_pair (numbered 0 column) ≡ r
        → min_pair (numbered 0 (column_costs (length s.nodes) (row first ss) (drop j s.weights)))
          ≡ r
    unfolding column
    column_pair e = e

    live_edge :
        (d0 : ℕ)
        → d0 < inf_w
        → IsLeast (length s.nodes) (row first ss) s.weights j inf_w d0
        → (i : ℕ) × (c : ℕ) × (e : ℕ) × Enters (length s.nodes) (row first ss) s.weights j i c e
          × (d0 ≡ c + e)
    live_edge d0 fin least = elim least.attained [
      | inl same ↦ absurd (omega arith)
      | inr found ↦ found
    ]

    -- The minimum of the column is the least sum.
    minimum-IsPredecessor :
        (m k d d0 w i0 c0 e0 : ℕ)
        → IsMinimum 0 column m k
        → IsLeast (length s.nodes) (row first ss) s.weights j inf_w d0
        → Enters (length s.nodes) (row first ss) s.weights j i0 c0 e0
        → d0 ≡ c0 + e0
        → j < length s.nodes
        → get_elem? s.nodes j ≡ some w
        → d0 < inf_w
        → d ≡ d0 + w
        → IsPredecessor s ss j d k
    minimum-IsPredecessor m k d d0 w i0 c0 e0 p least x0 sum0 inside weight_eq fin sum =
        let below : k < length (row first ss) =
          omega (arith, lt_of_get_elem? column (k - 0) p.found, length-column) in
        let (c, c_eq) = get_elem?-some (row first ss) k below in
        let room : k * length s.nodes + j < length s.weights = omega (
          arith,
          cell_below k (length (top first ss)) (length s.nodes) j
              (omega (arith, length-row first ss)) inside,
          h.0.shape,
        ) in
        let (e, e_eq) = get_elem?-some s.weights (k * length s.nodes + j) room in
        let at : some (saturating_add c e) ≡ some m =
          sym (column_costs-get_elem? (length s.nodes) (row first ss) s.weights j k c_eq e_eq)
          ∙ (column_at k ∙ p.found) in
        let upper : m ≤ d0 = omega (
          arith,
          p.least i0 (saturating_add c0 e0) (column_entry i0 x0),
          saturating_add_bounds c0 e0,
        ) in
        let exact = sum_exact c e m d0 (some-injective _ _ at) upper fin in
        let lower : d0 ≤ c + e =
          least.le_sum k c e (record { cost_eq = c_eq; edge_eq = e_eq; live = exact.1 }) in
        record {
          cost = c;
          edge = e;
          weight = w;
          cost_eq = c_eq;
          edge_eq = e_eq;
          weight_eq = weight_eq;
          live = exact.1;
          sum_eq = omega (arith, exact.0);
          lowest = λ k' c' e' x same. omega (
            arith,
            p.lowest k' (saturating_add c' e') (column_entry k' x)
                (saturating_add_of_lt c' e' (omega (arith, exact.0)) ∙ (same ∙ exact.0)),
          );
        }

    -- `predecessor` finds one for each node of finite cost, whatever follows in the table.
    predecessor-IsPredecessor :
        (d : ℕ) (future : List ℕ)
        → get_elem? (row first (s ∷ ss)) j ≡ some d
        → d < inf_w
        → (k : NodeId) × (predecessor (stage_boundary first s ss) (table first ss ++ future) j
            ≡ ok k)
          × IsPredecessor s ss j d k
    unfolding predecessor
    predecessor-IsPredecessor d future at fin =
        let inside : j < length s.nodes =
          omega (arith, lt_of_get_elem? (row first (s ∷ ss)) j at, length-row first (s ∷ ss)) in
        let (w, weight_eq) = get_elem?-some s.nodes j inside in
        let (d0, found, least) = stage_row first s ss j h weight_eq in
        let parts = finite_parts d d0 w (some-injective _ _ (sym at ∙ found)) fin in
        let (i0, c0, e0, x0, sum0) = live_edge d0 parts.0 least in
        let (m, k, pair_eq, p) = column-IsMinimum column i0 (column_entry i0 x0) column_word in
        let width : length (flat_nodes first ss) + length s.nodes - length (flat_nodes first ss)
            ≡ length s.nodes =
          omega arith in
        let some_width : (length s.nodes == 0) ≡ false = ground arith in
        (
          k,
          rw (width, some_width, slice-table first ss future, column_pair pair_eq) refl,
          minimum-IsPredecessor m k d d0 w i0 c0 e0 p least x0 sum0 inside weight_eq parts.0
              parts.1,
        )

  -- Over layers with weights in range, tracing back through the table from a node of the last layer whose
  -- entry is below the infinity does not panic or stop early, and gives a path to it of exactly that cost,
  -- whatever follows in the table.
  pub trace_back-Reaches :
      (ss : List Stage) (j d : ℕ) (future : List ℕ)
      → AreStages first ss
      → get_elem? (row first ss) j ≡ some d
      → d < inf_w
      → (p : List NodeId) × (trace_back
            (reverse (stage_boundaries first ss))
            (table first ss ++ future)
            j
          ≡ ok p)
        × Reaches first ss (j ∷ p) d
  unfolding trace_back stage_boundaries table row
  trace_back-Reaches [] j d future h at fin = ([], refl, start at)
  trace_back-Reaches (s ∷ ss) j d future h at fin =
      let (i, found, q) =
        predecessor-IsPredecessor s ss j h d (row first (s ∷ ss) ++ future) at fin in
      let (p, traced, r) =
        trace_back-Reaches ss i q.cost (row first (s ∷ ss) ++ future) h.1 q.cost_eq q.live in
      (
        i ∷ p,
        rw
            (
              reverse_snoc (stage_boundaries first ss) (stage_boundary first s ss),
              append_assoc (table first ss) (row first (s ∷ ss)) future,
            )
            (trace_back_step _ _ _ j i found traced),
        subst (λ x. Reaches first (s ∷ ss) (j ∷ i ∷ p) x) (sym q.sum_eq)
            (step r q.edge_eq q.weight_eq),
      )
