-- ===== src/Solver/Stages.antt =====
-- A resolved trellis as a list of stages, the last one first: the abstract view that the solvers'
-- theorems are proved over.
use routers.Common.{
  ℕ, ◌+◌, ◌*◌, ◌≤◌, ◌<◌, ◌≡◌, refl, ap, ◌∙◌, sym, List, [], ◌∷◌, ◌++◌, some, arith, length,
  get_elem?, get_elem?-some, lt_of_get_elem?, All, All-get_elem?, u32_mod, ltb, if◌then◌else◌, ltb,
  if◌then◌else◌,
}
use routers.Trellis.Types.{NodeId, inf_w, max_weight}
use routers.Solver.Forward.{next_row}
use routers.Solver.Relax.{IsLeast, next_row-IsLeast, length-next_row}

-- A layer but the first: the weights of the boundary into it, and its nodes' weights.
pub record Stage : Type 0 where
  pub weights : List ℕ
  pub nodes : List ℕ

pub record IsStage (below : ℕ) (s : Stage) : Type 0 where
  pub wide : 0 < length s.nodes
  pub word : length s.nodes < u32_mod
  pub nodes_ok : All (λ w. w ≤ max_weight) s.nodes
  pub shape : length s.weights ≡ below * length s.nodes
  pub weights_ok : All (λ w. w ≤ inf_w) s.weights

pub record IsFirst (first : List ℕ) : Type 0 where
  pub wide : 0 < length first
  pub word : length first < u32_mod
  pub nodes_ok : All (λ w. w ≤ max_weight) first

module _ (first : List ℕ) where
  -- The nodes' weights of the top layer.
  abbrev pub top : List Stage → List ℕ
  top [] = first
  top (s ∷ ss) = s.nodes

  abbrev pub AreStages : List Stage → Type 0
  AreStages [] = IsFirst first
  AreStages (s ∷ ss) = IsStage (length (top ss)) s × AreStages ss

  -- The costs of the top layer.
  unfoldable pub row : List Stage → List ℕ
  row [] = first
  row (s ∷ ss) = next_row (row ss) s.weights (length s.nodes) s.nodes

  -- The fields of the trellis, in order.
  unfoldable pub flat_nodes : List Stage → List ℕ
  flat_nodes [] = first
  flat_nodes (s ∷ ss) = flat_nodes ss ++ s.nodes

  unfoldable pub flat_widths : List Stage → List ℕ
  flat_widths [] = length first ∷ []
  flat_widths (s ∷ ss) = flat_widths ss ++ (length s.nodes ∷ [])

  -- The table after the forward pass.
  unfoldable pub table : List Stage → List ℕ
  table [] = first
  table (s ∷ ss) = table ss ++ row (s ∷ ss)

  -- A path, the last node first, and its exact cost.
  pub data Reaches : List Stage → List NodeId → ℕ → Type 0 where
    start : {j w : ℕ} → get_elem? first j ≡ some w → Reaches [] (j ∷ []) w
    step :
        {s : Stage} {ss : List Stage} {p : List NodeId} {i j c e w : ℕ}
        → Reaches ss (i ∷ p) c
        → get_elem? s.weights (i * length s.nodes + j) ≡ some e
        → get_elem? s.nodes j ≡ some w
        → Reaches (s ∷ ss) (j ∷ i ∷ p) (c + e + w)

  pub length-row : (ss : List Stage) → length (row ss) ≡ length (top ss)
  unfolding row
  length-row [] = refl
  length-row (s ∷ ss) = length-next_row (row ss) s.weights (length s.nodes) s.nodes

  pub Reaches-lt :
      {ss : List Stage} {p : List NodeId} {j c : ℕ} → Reaches ss (j ∷ p) c → j < length (top ss)
  Reaches-lt (start {j} e) = lt_of_get_elem? first j e
  Reaches-lt (step {s} {j} r p q) = lt_of_get_elem? s.nodes j q

  -- The entry of a node of the top layer.
  pub stage_row :
      (s : Stage) (ss : List Stage) (j : ℕ) {w : ℕ}
      → AreStages (s ∷ ss)
      → get_elem? s.nodes j ≡ some w
      → (d : ℕ) × (get_elem? (row (s ∷ ss)) j ≡ some (if ltb d inf_w then d + w else d))
        × IsLeast (length s.nodes) (row ss) s.weights j inf_w d
  unfolding row
  stage_row s ss j h q =
      next_row-IsLeast (row ss) s.weights (length s.nodes) s.nodes j
        (h.0.shape ∙ ap (λ n. n * length s.nodes) (sym (length-row ss)))
        (lt_of_get_elem? s.nodes j q) h.0.weights_ok (All-get_elem? _ s.nodes j h.0.nodes_ok q) q

  -- Over layers with weights in range, a path into a node whose cost is below the infinity costs no less
  -- than the node's entry in the row of its layer.
  pub row-le-Reaches :
      {ss : List Stage} {p : List NodeId} {j c : ℕ} (d : ℕ)
      → AreStages ss
      → Reaches ss (j ∷ p) c
      → get_elem? (row ss) j ≡ some d
      → c < inf_w
      → d ≤ c
  unfolding row
  row-le-Reaches d h (start e) q lt = ground arith
  row-le-Reaches d h (step {s} {ss} {i} {j} {c} {e} {w} r p w_eq) q lt =
      let (d0, found, least) = stage_row s ss j h w_eq in
      let (a, a_eq) = get_elem?-some (row ss) i (omega (arith, Reaches-lt r, length-row ss)) in
      let below : a ≤ c = row-le-Reaches a h.1 r a_eq (omega arith) in
      let sum : d0 ≤ a + e =
        least.le_sum i a e (record { cost_eq = a_eq; edge_eq = p; live = omega arith }) in
      let same : some d ≡ some (if ltb d0 inf_w then d0 + w else d0) = sym q ∙ found in
      ground (arith, sum, below, same)
