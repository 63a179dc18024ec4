-- ===== src/Routing/Visits.antt =====
-- What `next` of libs/routers_transition/src/primitives/algorithms/dijkstra.rs answers.
use mathlib.Core.List.{Memᴰ}
use mathlib.Core.List.Memᴰ
use mathlib.Core.Option
use routers.Common.{
  ℕ, zero, suc, ◌<◌, ◌≡◌, refl, ◌∙◌, sym, subst, inl, inr, List, [], ◌∷◌, none, some, Bool, true,
  false, arith, length, get_elem?, Bool-cases, Option-cases,
}
use routers.Routing.Cost.{WeightAndDistance}
use routers.Routing.Dijkstra.{
  SmallestHolder, Heap, Visited, DijkstraReachable, DijkstraReachableItem, Next, item, ended,
  panicked, out_of_fuel, is_seen, relax_successors, visit, next_from, next,
}
use routers.Routing.Relaxed.{relax_successors-AllRelaxed}
use routers.Routing.Walks.{Reached, here, along, AreWalks}
use routers.Routing.Trail.{is_seen-Mem, Mem-is_seen, IsTrail, IsTrail-skip, IsTrail-visit}

module _ {E : Type 0} (same : E → E → Bool) (same_sound : (a b : E) → same a b ≡ true → a ≡ b)
    (heap : Heap) (successors : E → List (E × WeightAndDistance)) (start : E) where
  -- An item: a node that was not seen, with the cost of a walk to it, and a state with one more node seen.
  pub record IsVisit (st : DijkstraReachable E) (it : DijkstraReachableItem E)
      (after : DijkstraReachable E) : Type 0 where
    pub trail : IsTrail same same_sound successors start after
    pub walk : Reached successors start it.node it.total_cost
    pub index : ℕ
    pub fresh : Memᴰ index st.seen → ⊥
    pub seen_eq : after.seen ≡ index ∷ st.seen
    pub entry : Visited E
    pub entry_eq : get_elem? st.parents index ≡ some entry
    pub node_eq : it.node ≡ entry.node

  -- The end: every node that a walk reaches has been seen.
  abbrev pub IsComplete : DijkstraReachable E → Type 0
  IsComplete st =
      (n : E) (c : WeightAndDistance)
      → Reached successors start n c
      → (i : ℕ) × (v : Visited E) × Memᴰ i st.seen
        × (get_elem? st.parents i ≡ some v)
        × (v.node ≡ n)

  abbrev pub NextAnswer : DijkstraReachable E → Next E → Type 0
  NextAnswer st (item it after) = IsVisit st it after
  NextAnswer st (ended after) =
      (after.seen ≡ st.seen) × (after.parents ≡ st.parents) × IsComplete st
  NextAnswer st panicked = ⊥
  NextAnswer st out_of_fuel = ⊥

  -- With an empty heap every entry is seen.
  all_seen :
      (st : DijkstraReachable E)
      → IsTrail same same_sound successors start st
      → st.to_see ≡ []
      → (i : ℕ) (v : Visited E) → get_elem? st.parents i ≡ some v
      → Memᴰ i st.seen
  all_seen st t empty i v e = elim (t.covered i v e) [
    | inl s ↦ s
    | inr (h, m, _) ↦ absurd (Memᴰ.not-nil (subst (Memᴰ h) empty m))
  ]

  IsComplete-of_empty :
      (st : DijkstraReachable E)
      → IsTrail same same_sound successors start st
      → st.to_see ≡ []
      → IsComplete st
  IsComplete-of_empty st t empty n c here =
      let (i, v, e, node) = t.rooted in (i, v, all_seen st t empty i v e, e, node)
  IsComplete-of_empty st t empty goal total (along {n} {s} {c} {m} walk edge) =
      let (i, v, seen, e, node) = IsComplete-of_empty st t empty n c walk in
      let (j, u, u_eq, u_node) =
        t.closed i v s m seen e (subst (λ x. Memᴰ (s, m) (successors x)) (sym node) edge) in
      (j, u, all_seen st t empty j u u_eq, u_eq, u_node)

  visit_lem :
      (x : SmallestHolder) (st : DijkstraReachable E) (v : Visited E)
      → get_elem? st.parents x.index ≡ some v
      → visit same heap successors x st
        ≡ item
            (record {
              node = v.node;
              parent = Option.map (λ (p : Visited E). p.node) (get_elem? st.parents v.parent_index);
              total_cost = v.cost;
            })
            (relax_successors same x.index x.cost
              (successors v.node)
              (record st { seen = x.index ∷ st.seen }))
  unfolding visit
  visit_lem x st v e = rw (visit, e) refl

  next_end :
      (fuel : ℕ) (st : DijkstraReachable E)
      → heap.pop st.to_see ≡ none
      → next_from same heap successors (suc fuel) st ≡ ended st
  unfolding next_from
  next_end fuel st e = rw (next_from, e) refl

  next_seen :
      (fuel : ℕ) (st : DijkstraReachable E) (x : SmallestHolder) (rest : List SmallestHolder)
      → heap.pop st.to_see ≡ some (x, rest)
      → is_seen x.index st.seen ≡ true
      → next_from same heap successors (suc fuel) st
        ≡ next_from same heap successors fuel (record st { to_see = rest })
  unfolding next_from
  next_seen fuel st x rest e q = rw (next_from, e, q) refl

  next_fresh :
      (fuel : ℕ) (st : DijkstraReachable E) (x : SmallestHolder) (rest : List SmallestHolder)
      → heap.pop st.to_see ≡ some (x, rest)
      → is_seen x.index st.seen ≡ false
      → next_from same heap successors (suc fuel) st
        ≡ visit same heap successors x (record st { to_see = rest })
  unfolding next_from
  next_fresh fuel st x rest e q = rw (next_from, e, q) refl

  visit-NextAnswer :
      (st : DijkstraReachable E) (x : SmallestHolder) (rest : List SmallestHolder)
      → IsTrail same same_sound successors start st
      → heap.pop st.to_see ≡ some (x, rest)
      → is_seen x.index st.seen ≡ false
      → NextAnswer st (visit same heap successors x (record st { to_see = rest }))
  visit-NextAnswer st x rest t popped fresh =
      let (v, at, walk) = t.walks.holders x (heap.pop_from st.to_see rest x x popped (inl refl)) in
      let mid : DijkstraReachable E = record st { to_see = rest; seen = x.index ∷ st.seen } in
      let mid_walks : AreWalks successors start mid = record {
        holders = λ h m. t.walks.holders h (heap.pop_from st.to_see rest x h popped (inr m));
        entries = t.walks.entries;
      } in
      let relaxed =
        relax_successors-AllRelaxed same same_sound successors start x.index x.cost v.node
          (successors v.node) mid mid_walks walk (λ s m k. k) in
      subst (NextAnswer st) (sym (visit_lem x (record st { to_see = rest }) v at)) (record {
        trail =
            IsTrail-visit same same_sound successors start st
              (relax_successors same x.index x.cost (successors v.node) mid) heap x rest v t popped
              at relaxed;
        walk = t.walks.entries x.index v at;
        index = x.index;
        fresh = λ m. absurd (true_false (sym (Mem-is_seen x.index st.seen m) ∙ fresh));
        seen_eq = relaxed.all_extend.seen_eq;
        entry = v;
        entry_eq = at;
        node_eq = refl;
      })
    where
      true_false : true ≡ false → ⊥
      true_false e = absurd (ground arith)

  NextAnswer-skip :
      (st : DijkstraReachable E) (rest : List SmallestHolder) (r : Next E)
      → NextAnswer (record st { to_see = rest }) r
      → NextAnswer st r
  NextAnswer-skip st rest (item it after) h = record {
    trail = h.trail;
    walk = h.walk;
    index = h.index;
    fresh = h.fresh;
    seen_eq = h.seen_eq;
    entry = h.entry;
    entry_eq = h.entry_eq;
    node_eq = h.node_eq;
  }
  NextAnswer-skip st rest (ended after) h = h
  NextAnswer-skip st rest panicked h = absurd h
  NextAnswer-skip st rest out_of_fuel h = absurd h

  next_from-NextAnswer :
      (fuel : ℕ) (st : DijkstraReachable E)
      → IsTrail same same_sound successors start st
      → length st.to_see < fuel
      → NextAnswer st (next_from same heap successors fuel st)
  next_from-NextAnswer zero st t enough = absurd (omega arith)
  next_from-NextAnswer (suc fuel) st t enough = elim (Option-cases (heap.pop st.to_see)) [
    | inl done ↦
        subst (NextAnswer st) (sym (next_end fuel st done))
          (refl, refl, IsComplete-of_empty st t (heap.pop_none st.to_see done))
    | inr ((x, rest), popped) ↦ elim (Bool-cases (is_seen x.index st.seen)) [
      | inl seen ↦ subst (NextAnswer st) (sym (next_seen fuel st x rest popped seen)) (
          NextAnswer-skip st rest
            (next_from same heap successors fuel (record st { to_see = rest }))
            (next_from-NextAnswer fuel (record st { to_see = rest })
              (IsTrail-skip same same_sound successors start st heap x rest t popped
                (is_seen-Mem x.index st.seen seen))
              (omega (arith, heap.pop_length st.to_see rest x popped))))
      | inr fresh ↦
          subst (NextAnswer st) (sym (next_fresh fuel st x rest popped fresh))
            (visit-NextAnswer st x rest t popped fresh)
    ]
  ]

  -- On a state of the iterator `next` ends without a panic. It yields a node whose index was not seen before,
  -- with the cost of a walk to it from the start; or it is over, and every node that a walk reaches has been
  -- seen.
  pub next-NextAnswer :
      (st : DijkstraReachable E)
      → IsTrail same same_sound successors start st
      → NextAnswer st (next same heap successors st)
  unfolding next
  next-NextAnswer st t = next_from-NextAnswer (suc (length st.to_see)) st t (omega arith)
