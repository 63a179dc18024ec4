-- ===== src/Solver/View.antt =====
-- Every valid, resolved trellis is the flat form of some stages.
use mathlib.Core.List.{append_assoc}
use routers.Common.{
  ℕ, suc, ◌+◌, ◌*◌, ◌≤◌, ◌<◌, ◌≡◌, refl, ap, subst, ◌∙◌, sym, List, [], ◌∷◌, ◌++◌, some, true,
  arith, append-nil, length, take, drop, get_elem?, length-append, length-take, length-drop,
  take-append-drop, All, All-take, All-drop, get_elem?-append, Range, slice, slice-append,
}
use routers.Trellis.Types.{Transition, pending, resolved, max_weight}
use routers.Trellis.Graph.{Trellis, sum, all_resolved, fully_resolved}
use routers.Trellis.Shape.{IsShaped}
use routers.Trellis.Valid.{IsValid, IsWidth}
use routers.Solver.Stages.{Stage, IsStage, IsFirst, AreStages, top, flat_nodes, flat_widths}

unfoldable pub flat_transitions : List Stage → List Transition
flat_transitions [] = []
flat_transitions (s ∷ ss) = flat_transitions ss ++ (resolved s.weights ∷ [])

-- The stages are the lower layers of the trellis.
pub record Within (t : Trellis) (first : List ℕ) (ss : List Stage) : Type 0 where
  pub later_widths : List ℕ
  pub later_nodes : List ℕ
  pub later_transitions : List Transition
  pub widths_eq : t.widths ≡ flat_widths first ss ++ later_widths
  pub nodes_eq : t.nodes ≡ flat_nodes first ss ++ later_nodes
  pub transitions_eq : t.transitions ≡ flat_transitions ss ++ later_transitions
  pub stages_ok : AreStages first ss

-- The stages are all layers of the trellis.
pub record Shows (t : Trellis) (first : List ℕ) (ss : List Stage) : Type 0 where
  pub all_widths : t.widths ≡ flat_widths first ss
  pub all_nodes : t.nodes ≡ flat_nodes first ss
  pub all_transitions : t.transitions ≡ flat_transitions ss
  pub all_ok : AreStages first ss

pub Shows-Within :
    (t : Trellis) (first : List ℕ) (ss : List Stage) → Shows t first ss → Within t first ss
Shows-Within t first ss v = record {
  later_widths = [];
  later_nodes = [];
  later_transitions = [];
  widths_eq = v.all_widths ∙ sym (append-nil (flat_widths first ss));
  nodes_eq = v.all_nodes ∙ sym (append-nil (flat_nodes first ss));
  transitions_eq = v.all_transitions ∙ sym (append-nil (flat_transitions ss));
  stages_ok = v.all_ok;
}

module _ (t : Trellis) (first : List ℕ) where
  pub Within-pred : (s : Stage) (ss : List Stage) → Within t first (s ∷ ss) → Within t first ss
  unfolding flat_widths flat_nodes flat_transitions
  Within-pred s ss v = record {
    later_widths = length s.nodes ∷ v.later_widths;
    later_nodes = s.nodes ++ v.later_nodes;
    later_transitions = resolved s.weights ∷ v.later_transitions;
    widths_eq =
        v.widths_eq ∙ append_assoc (flat_widths first ss) (length s.nodes ∷ []) v.later_widths;
    nodes_eq = v.nodes_eq ∙ append_assoc (flat_nodes first ss) s.nodes v.later_nodes;
    transitions_eq =
        v.transitions_eq
        ∙ append_assoc (flat_transitions ss) (resolved s.weights ∷ []) v.later_transitions;
    stages_ok = v.stages_ok.1;
  }

  pub length-flat_transitions : (ss : List Stage) → length (flat_transitions ss) ≡ length ss
  unfolding flat_transitions
  length-flat_transitions [] = refl
  length-flat_transitions (s ∷ ss) = omega (
    arith,
    length-append (flat_transitions ss) (resolved s.weights ∷ []),
    length-flat_transitions ss,
  )

  pub length-flat_widths : (ss : List Stage) → length (flat_widths first ss) ≡ suc (length ss)
  unfolding flat_widths
  length-flat_widths [] = refl
  length-flat_widths (s ∷ ss) =
      omega
        (arith, length-append (flat_widths first ss) (length s.nodes ∷ []), length-flat_widths ss)

  -- The boundary, the width and the nodes of a stage within the trellis.
  pub Within-transition :
      (s : Stage) (ss : List Stage)
      → Within t first (s ∷ ss)
      → get_elem? t.transitions (length ss) ≡ some (resolved s.weights)
  unfolding Within-pred
  Within-transition s ss v =
      let w = Within-pred s ss v in
      rw (w.transitions_eq, ← length-flat_transitions ss)
        (get_elem?-append (flat_transitions ss) (resolved s.weights) v.later_transitions)

  pub Within-width :
      (s : Stage) (ss : List Stage)
      → Within t first (s ∷ ss)
      → get_elem? t.widths (suc (length ss)) ≡ some (length s.nodes)
  unfolding Within-pred
  Within-width s ss v =
      let w = Within-pred s ss v in
      rw (w.widths_eq, ← length-flat_widths ss)
        (get_elem?-append (flat_widths first ss) (length s.nodes) v.later_widths)

  pub Within-nodes :
      (s : Stage) (ss : List Stage) (r : Range)
      → Within t first (s ∷ ss)
      → r.start ≡ length (flat_nodes first ss)
      → r.stop ≡ length (flat_nodes first ss) + length s.nodes
      → slice t.nodes r ≡ some s.nodes
  unfolding Within-pred
  Within-nodes s ss r v p q =
      let w = Within-pred s ss v in
      ap (λ xs. slice xs r) w.nodes_eq
      ∙ slice-append (flat_nodes first ss) s.nodes v.later_nodes r p q

-- The layers that are left extend the stages found.
extend :
    (first : List ℕ) (ss : List Stage) (ws ns : List ℕ) (ts : List Transition)
    → AreStages first ss
    → IsShaped (length (top first ss) ∷ ws) ts
    → All IsWidth ws
    → length ns ≡ sum ws
    → All (λ w. w ≤ max_weight) ns
    → all_resolved ts ≡ true
    → (rs : List Stage) × AreStages first rs
      × (flat_widths first rs ≡ flat_widths first ss ++ ws)
      × (flat_nodes first rs ≡ flat_nodes first ss ++ ns)
      × (flat_transitions rs ≡ flat_transitions ss ++ ts)
unfolding flat_widths flat_nodes flat_transitions
extend first ss [] [] [] h shape wide count bound done =
    (ss, h, sym (append-nil _), sym (append-nil _), sym (append-nil _))
extend first ss [] [] (x ∷ ts) h shape wide count bound done = absurd shape
extend first ss [] (n ∷ ns) ts h shape wide count bound done = absurd (omega arith)
extend first ss (w ∷ ws) ns [] h shape wide count bound done = absurd shape
extend first ss (w ∷ ws) ns (pending ∷ ts) h shape wide count bound done = absurd (ground arith)
extend first ss (w ∷ ws) ns (resolved xs ∷ ts) h shape wide count bound done =
    let s : Stage = record { weights = xs; nodes = take w ns } in
    let size : length (take w ns) ≡ w = omega (arith, length-take w ns) in
    let ok : IsStage (length (top first ss)) s = record {
      wide = omega (arith, wide.0.0);
      word = omega (arith, wide.0.1);
      nodes_ok = All-take (λ n. n ≤ max_weight) w ns bound;
      shape = shape.0.0 ∙ ap (λ n. length (top first ss) * n) (sym size);
      weights_ok = shape.0.1;
    } in
    let (rs, good, ws_eq, ns_eq, ts_eq) =
      extend first (s ∷ ss) ws (drop w ns) ts (ok, h)
        (subst (λ n. IsShaped (n ∷ ws) ts) (sym size) shape.1) wide.1
        (omega (arith, length-drop w ns)) (All-drop (λ n. n ≤ max_weight) w ns bound) done in
    (
      rs,
      good,
      ws_eq
          ∙ ap (λ n. (flat_widths first ss ++ (n ∷ [])) ++ ws) size
          ∙ append_assoc (flat_widths first ss) (w ∷ []) ws,
      ns_eq
          ∙ append_assoc (flat_nodes first ss) (take w ns) (drop w ns)
          ∙ ap (λ l. flat_nodes first ss ++ l) (take-append-drop w ns),
      ts_eq ∙ append_assoc (flat_transitions ss) (resolved xs ∷ []) ts,
    )

-- A valid trellis whose boundaries are all resolved is shown by some stages.
pub Shows-of_resolved :
    (t : Trellis)
    → IsValid t
    → fully_resolved t ≡ true
    → (first : List ℕ) × (ss : List Stage) × Shows t first ss
unfolding fully_resolved flat_widths flat_nodes flat_transitions
Shows-of_resolved t v done = split t.widths refl v.has_layer v.widths_ok v.node_count v.shape
  where
    split :
        (ws : List ℕ)
        → t.widths ≡ ws
        → 0 < length ws
        → All IsWidth ws
        → length t.nodes ≡ sum ws
        → IsShaped ws t.transitions
        → (first : List ℕ) × (ss : List Stage) × Shows t first ss
    split [] e pos wide count shape = absurd (omega arith)
    split (w ∷ ws) e pos wide count shape =
        let size : length (take w t.nodes) ≡ w = omega (arith, length-take w t.nodes) in
        let first_ok : IsFirst (take w t.nodes) = record {
          wide = omega (arith, wide.0.0);
          word = omega (arith, wide.0.1);
          nodes_ok = All-take (λ n. n ≤ max_weight) w t.nodes v.nodes_ok;
        } in
        let (rs, good, ws_eq, ns_eq, ts_eq) =
          extend (take w t.nodes) [] ws (drop w t.nodes) t.transitions first_ok
            (subst (λ n. IsShaped (n ∷ ws) t.transitions) (sym size) shape) wide.1
            (omega (arith, length-drop w t.nodes))
            (All-drop (λ n. n ≤ max_weight) w t.nodes v.nodes_ok) done in
        (
          take w t.nodes,
          rs,
          record {
            all_widths = e ∙ sym (ws_eq ∙ ap (λ n. n ∷ ws) size);
            all_nodes = sym (ns_eq ∙ take-append-drop w t.nodes);
            all_transitions = sym ts_eq;
            all_ok = good;
          },
        )
