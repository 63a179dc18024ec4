-- ===== src/Routing/Relaxed.antt =====
-- What the loop over the successors of libs/routers_transition/src/primitives/algorithms/dijkstra.rs leaves.
use mathlib.Core.List.{Memᴰ}
use mathlib.Core.List.Memᴰ
use routers.Common.{
  ℕ, ◌+◌, ◌≡◌, refl, ap, ◌∙◌, sym, subst, inl, inr, List, [], ◌∷◌, ◌++◌, none, some, Bool, true,
  arith, length, get_elem?, set, get_elem?-append, get_elem?-append_left, get_elem?-set_self,
  lt_of_get_elem?, if◌then◌else◌, Bool-cases, Option-cases,
}
use routers.Routing.Cost.{WeightAndDistance, add_cost, cost_lt}
use routers.Routing.Dijkstra.{
  SmallestHolder, Visited, DijkstraReachable, find_entry, relax_successor, relax_successors,
}
use routers.Routing.Walks.{
  Reached, along, Known, AreWalks, Extends, Extends-refl, Extends-trans, Known-Extends,
}
use routers.Routing.Entries.{find_entry-get_elem?, append_back, set_node, set_back}

module _ {E : Type 0} (same : E → E → Bool) (same_sound : (a b : E) → same a b ≡ true → a ≡ b)
    (successors : E → List (E × WeightAndDistance)) (start : E) where
  -- A new entry at the end, with its holder.
  abbrev appended : DijkstraReachable E → Visited E → WeightAndDistance → DijkstraReachable E
  appended st v c = record st {
    parents = st.parents ++ (v ∷ []);
    to_see = record { cost = c; index = length st.parents } ∷ st.to_see;
  }

  pub record Relaxed (st after : DijkstraReachable E) (n : E) : Type 0 where
    pub walks : AreWalks successors start after
    pub extends : Extends st after
    pub known : Known after n

  appended-Relaxed :
      (st : DijkstraReachable E) (v : Visited E) (c : WeightAndDistance)
      → AreWalks successors start st
      → Reached successors start v.node v.cost
      → Reached successors start v.node c
      → Relaxed st (appended st v c) v.node
  appended-Relaxed st v c a entry held = record {
    walks = record {
      holders = λ h m. elim (Memᴰ.cases_cons m) [
        | inl e ↦ (
          v,
          ap (λ (x : SmallestHolder). get_elem? (st.parents ++ (v ∷ [])) x.index) e
              ∙ get_elem?-append st.parents v [],
          subst (λ (x : SmallestHolder). Reached successors start v.node x.cost) (sym e) held,
        )
        | inr later ↦
            let (u, at, walk) = a.holders h later in
            (
              u,
              get_elem?-append_left st.parents (v ∷ []) h.index
                    (lt_of_get_elem? st.parents h.index at)
                  ∙ at,
              walk,
            )
      ];
      entries = λ i u e. elim (append_back st.parents v u i e) [
        | inl at ↦ a.entries i u at
        | inr (_, q) ↦ subst (λ (x : Visited E). Reached successors start x.node x.cost) q entry
      ];
    };
    extends = record {
      seen_eq = refl;
      kept = λ i u e. (
        u,
        get_elem?-append_left st.parents (v ∷ []) i (lt_of_get_elem? st.parents i e) ∙ e,
        refl,
      );
      back = λ i u e. elim (append_back st.parents v u i e) [
        | inl at ↦ inl (u, at, refl)
        | inr (at, _) ↦ inr (record { cost = c; index = length st.parents }, Memᴰ.head refl, sym at)
      ];
      holders_kept = λ h m. Memᴰ.tail m;
    };
    known = (length st.parents, v, get_elem?-append st.parents v [], refl);
  }

  -- An entry with a lower cost and another parent, with its holder.
  abbrev lowered : DijkstraReachable E → ℕ → Visited E → ℕ → WeightAndDistance → DijkstraReachable E
  lowered st i old index c = record st {
    parents = set st.parents i (record old { parent_index = index; cost = c });
    to_see = record { cost = c; index = i } ∷ st.to_see;
  }

  lowered-Relaxed :
      (st : DijkstraReachable E) (i index : ℕ) (old : Visited E) (c : WeightAndDistance)
      → AreWalks successors start st
      → get_elem? st.parents i ≡ some old
      → Reached successors start old.node c
      → Relaxed st (lowered st i old index c) old.node
  lowered-Relaxed st i index old c a at walk =
      let new : Visited E = record old { parent_index = index; cost = c } in
      record {
        walks = record {
          holders = λ h m. elim (Memᴰ.cases_cons m) [
            | inl e ↦ (
              new,
              ap (λ (x : SmallestHolder). get_elem? (set st.parents i new) x.index) e
                  ∙ get_elem?-set_self st.parents i new (lt_of_get_elem? st.parents i at),
              subst (λ (x : SmallestHolder). Reached successors start old.node x.cost) (sym e) walk,
            )
            | inr later ↦
                let (v, v_at, v_walk) = a.holders h later in
                let (u, u_at, u_node) = set_node st.parents i h.index old new v at refl v_at in
                (u, u_at, subst (λ n. Reached successors start n h.cost) (sym u_node) v_walk)
          ];
          entries = λ j u e. elim (set_back st.parents i j old new u at e) [
            | inl (_, q) ↦ subst (λ (x : Visited E). Reached successors start x.node x.cost) q walk
            | inr f ↦ a.entries j u f
          ];
        };
        extends = record {
          seen_eq = refl;
          kept = λ j v e. set_node st.parents i j old new v at refl e;
          back = λ j u e. elim (set_back st.parents i j old new u at e) [
            | inl (q, _) ↦ inr (record { cost = c; index = i }, Memᴰ.head refl, q)
            | inr f ↦ inl (u, f, refl)
          ];
          holders_kept = λ h m. Memᴰ.tail m;
        };
        known =
            (i, new, get_elem?-set_self st.parents i new (lt_of_get_elem? st.parents i at), refl);
      }

  relax_new :
      (index : ℕ) (cost m : WeightAndDistance) (s : E) (st : DijkstraReachable E)
      → find_entry same 0 s st.parents ≡ none
      → relax_successor same index cost (s, m) st
        ≡ appended st
            (record { node = s; parent_index = index; cost = add_cost cost m })
            (add_cost cost m)
  unfolding relax_successor
  relax_new index cost m s st e = rw (relax_successor, e) refl

  relax_old :
      (index i : ℕ) (cost m : WeightAndDistance) (s : E) (old : Visited E)
      (st : DijkstraReachable E)
      → find_entry same 0 s st.parents ≡ some (i, old)
      → relax_successor same index cost (s, m) st ≡ (
          if cost_lt (add_cost cost m) old.cost
          then lowered st i old index (add_cost cost m)
          else st)
  unfolding relax_successor
  relax_old index i cost m s old st e = rw (relax_successor, e) refl

  relax_successor-Relaxed :
      (index : ℕ) (cost m : WeightAndDistance) (n s : E) (st : DijkstraReachable E)
      → AreWalks successors start st
      → Reached successors start n cost
      → Memᴰ (s, m) (successors n)
      → Relaxed st (relax_successor same index cost (s, m) st) s
  relax_successor-Relaxed index cost m n s st a walk edge =
      elim (Option-cases (find_entry same 0 s st.parents)) [
        | inl none_there ↦
            let v : Visited E = record { node = s; parent_index = index; cost = add_cost cost m } in
            subst (λ x. Relaxed st x s) (sym (relax_new index cost m s st none_there))
              (appended-Relaxed st v (add_cost cost m) a (along walk edge) (along walk edge))
        | inr ((i, old), found) ↦
            let (j, i_eq, at, node) =
              find_entry-get_elem? same same_sound 0 s st.parents i old found in
            let at' : get_elem? st.parents i ≡ some old =
              ap (get_elem? st.parents) (i_eq ∙ zero_plus j) ∙ at in
            subst (λ x. Relaxed st x s) (sym (relax_old index i cost m s old st found))
              (elim (Bool-cases (cost_lt (add_cost cost m) old.cost)) [
                | inl better ↦ rw better (
                    subst (Relaxed st (lowered st i old index (add_cost cost m))) node (
                      lowered-Relaxed st i index old (add_cost cost m) a at' (
                        subst (λ x. Reached successors start x (add_cost cost m)) (sym node)
                          (along walk edge))))
                | inr worse ↦
                    rw worse
                      (record { walks = a; extends = Extends-refl st; known = (i, old, at', node) })
              ])
      ]
    where
      zero_plus : (k : ℕ) → 0 + k ≡ k
      zero_plus k = omega arith

  -- The whole loop: every successor has an entry.
  pub record AllRelaxed (st after : DijkstraReachable E) (ss : List (E × WeightAndDistance))
      : Type 0 where
    pub all_walks : AreWalks successors start after
    pub all_extend : Extends st after
    pub all_known : (s : E) (m : WeightAndDistance) → Memᴰ (s, m) ss → Known after s

  pub relax_successors-AllRelaxed :
      (index : ℕ) (cost : WeightAndDistance) (n : E) (ss : List (E × WeightAndDistance))
      (st : DijkstraReachable E)
      → AreWalks successors start st
      → Reached successors start n cost
      → ((s : E) (m : WeightAndDistance) → Memᴰ (s, m) ss → Memᴰ (s, m) (successors n))
      → AllRelaxed st (relax_successors same index cost ss st) ss
  unfolding relax_successors
  relax_successors-AllRelaxed index cost n [] st a walk edges = record {
    all_walks = a;
    all_extend = Extends-refl st;
    all_known = λ s m k. absurd (Memᴰ.not-nil k);
  }
  relax_successors-AllRelaxed index cost n ((s, m) ∷ ss) st a walk edges =
      let one = relax_successor-Relaxed index cost m n s st a walk (edges s m (Memᴰ.head refl)) in
      let mid = relax_successor same index cost (s, m) st in
      let rest =
        relax_successors-AllRelaxed index cost n ss mid one.walks walk
          (λ x k e. edges x k (Memᴰ.tail e)) in
      record {
        all_walks = rest.all_walks;
        all_extend =
            Extends-trans st mid (relax_successors same index cost ss mid) one.extends
              rest.all_extend;
        all_known = λ x k e. elim (Memᴰ.cases_cons e) [
          | inl q ↦
              subst (Known (relax_successors same index cost ss mid))
                (ap (λ (p : E × WeightAndDistance). p.0) (sym q))
                (Known-Extends mid (relax_successors same index cost ss mid) s rest.all_extend
                  one.known)
          | inr later ↦ rest.all_known x k later
        ];
      }
