-- ===== src/Routing/Walks.antt =====
-- Walks in the graph of libs/routers_transition/src/primitives/algorithms/dijkstra.rs, and what a state keeps of
-- an earlier one.
use mathlib.Core.List.{Memᴰ}
use routers.Common.{ℕ, ◌≡◌, refl, ◌∙◌, ◌⊎◌, inl, inr, List, some, get_elem?}
use routers.Routing.Cost.{WeightAndDistance, add_cost, zero_cost}
use routers.Routing.Dijkstra.{SmallestHolder, Visited, DijkstraReachable}

module _ {E : Type 0} where
  -- A node that has an entry.
  abbrev pub Known : DijkstraReachable E → E → Type 0
  Known st n = (i : ℕ) × (v : Visited E) × (get_elem? st.parents i ≡ some v) × (v.node ≡ n)

  -- What a state keeps of an earlier one: the keys and the holders, and a holder for each new key.
  pub record Extends (st after : DijkstraReachable E) : Type 0 where
    pub seen_eq : after.seen ≡ st.seen
    pub kept :
        (i : ℕ) (v : Visited E)
        → get_elem? st.parents i ≡ some v
        → (u : Visited E) × (get_elem? after.parents i ≡ some u) × (u.node ≡ v.node)
    pub back :
        (i : ℕ) (u : Visited E)
        → get_elem? after.parents i ≡ some u
        → ((v : Visited E) × (get_elem? st.parents i ≡ some v) × (u.node ≡ v.node))
          ⊎ ((h : SmallestHolder) × Memᴰ h after.to_see × (h.index ≡ i))
    pub holders_kept : (h : SmallestHolder) → Memᴰ h st.to_see → Memᴰ h after.to_see

  pub Extends-refl : (st : DijkstraReachable E) → Extends st st
  Extends-refl st = record {
    seen_eq = refl;
    kept = λ i v e. (v, e, refl);
    back = λ i u e. inl (u, e, refl);
    holders_kept = λ h m. m;
  }

  pub Extends-trans : (a b c : DijkstraReachable E) → Extends a b → Extends b c → Extends a c
  Extends-trans a b c x y = record {
    seen_eq = y.seen_eq ∙ x.seen_eq;
    kept = λ i v e.
        let (u, u_eq, u_node) = x.kept i v e in
        let (w, w_eq, w_node) = y.kept i u u_eq in (w, w_eq, w_node ∙ u_node);
    back = λ i w e. elim (y.back i w e) [
      | inr (h, m, at) ↦ inr (h, m, at)
      | inl (u, u_eq, w_node) ↦ elim (x.back i u u_eq) [
        | inl (v, v_eq, u_node) ↦ inl (v, v_eq, w_node ∙ u_node)
        | inr (h, m, at) ↦ inr (h, y.holders_kept h m, at)
      ]
    ];
    holders_kept = λ h m. y.holders_kept h (x.holders_kept h m);
  }

  pub Known-Extends :
      (st after : DijkstraReachable E) (n : E) → Extends st after → Known st n → Known after n
  Known-Extends st after n x (i, v, e, node) =
      let (u, u_eq, u_node) = x.kept i v e in (i, u, u_eq, u_node ∙ node)

module _ {E : Type 0} (successors : E → List (E × WeightAndDistance)) (start : E) where
  -- A node, and the cost of a walk to it from the start.
  pub data Reached : E → WeightAndDistance → Type 0 where
    here : Reached start zero_cost
    along :
        {n s : E} {c m : WeightAndDistance}
        → Reached n c
        → Memᴰ (s, m) (successors n)
        → Reached s (add_cost c m)

  -- Entries and holders carry the costs of walks.
  pub record AreWalks (st : DijkstraReachable E) : Type 0 where
    pub holders :
        (h : SmallestHolder)
        → Memᴰ h st.to_see
        → (v : Visited E) × (get_elem? st.parents h.index ≡ some v) × Reached v.node h.cost
    pub entries : (i : ℕ) (v : Visited E) → get_elem? st.parents i ≡ some v → Reached v.node v.cost
