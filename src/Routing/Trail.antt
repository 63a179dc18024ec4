-- ===== src/Routing/Trail.antt =====
-- The invariant of the iterator of libs/routers_transition/src/primitives/algorithms/dijkstra.rs.
use mathlib.Core.List.{Memᴰ}
use mathlib.Core.List.Memᴰ
use mathlib.Core.Option.{some-injective}
use routers.Common.{
  ℕ, zero, suc, ◌-◌, ◌^◌, ◌≡◌, ◌≢◌, refl, ap, ◌∙◌, sym, subst, ◌⊎◌, inl, inr, List, [], ◌∷◌, some,
  Bool, true, false, ◌||◌, arith, get_elem?, ◌==◌, ℕ_discrete, eq→==,
}
use routers.Routing.Cost.{WeightAndDistance, zero_cost}
use routers.Routing.Dijkstra.{SmallestHolder, Heap, Visited, DijkstraReachable, is_seen, reach}
use routers.Routing.Relaxed.{AllRelaxed}
use routers.Routing.Walks.{Reached, here, Known, AreWalks, Known-Extends}

pub is_seen-Mem : (i : ℕ) (js : List ℕ) → is_seen i js ≡ true → Memᴰ i js
is_seen-Mem i [] h = absurd (ground arith)
is_seen-Mem i (j ∷ js) h = elim (ℕ_discrete i j) [
  | yes e ↦ Memᴰ.head e
  | no ne ↦ Memᴰ.tail (is_seen-Mem i js (ap (λ b. b || is_seen i js) (sym (differs i j ne)) ∙ h))
]
  where
    differs : (a b : ℕ) → a ≢ b → (a == b) ≡ false
    differs a b k = ground arith

pub Mem-is_seen : (i : ℕ) (js : List ℕ) → Memᴰ i js → is_seen i js ≡ true
Mem-is_seen i [] m = absurd (Memᴰ.not-nil m)
Mem-is_seen i (j ∷ js) m = elim (Memᴰ.cases_cons m) [
  | inl e ↦ rw (eq→== i j e) refl
  | inr later ↦ rw (Mem-is_seen i js later) (or_true (i == j))
]
  where
    or_true : (b : Bool) → (b || true) ≡ true
    or_true true = refl
    or_true false = refl

module _ {E : Type 0} (same : E → E → Bool) (same_sound : (a b : E) → same a b ≡ true → a ≡ b)
    (successors : E → List (E × WeightAndDistance)) (start : E) where
  -- Entries and holders carry the costs of walks; an entry is seen or waits in the heap; the successors of a
  -- seen node have entries, and so has the start.
  pub record IsTrail (st : DijkstraReachable E) : Type 0 where
    pub walks : AreWalks successors start st
    pub covered :
        (i : ℕ) (v : Visited E)
        → get_elem? st.parents i ≡ some v
        → Memᴰ i st.seen ⊎ ((h : SmallestHolder) × Memᴰ h st.to_see × (h.index ≡ i))
    pub settled : (i : ℕ) → Memᴰ i st.seen → (v : Visited E) × (get_elem? st.parents i ≡ some v)
    pub closed :
        (i : ℕ) (v : Visited E) (s : E) (m : WeightAndDistance)
        → Memᴰ i st.seen
        → get_elem? st.parents i ≡ some v
        → Memᴰ (s, m) (successors v.node)
        → Known st s
    pub rooted : Known st start

  pub reach-IsTrail : IsTrail (reach start)
  reach-IsTrail = record {
    walks = record {
      holders = λ h m. elim (Memᴰ.cases_cons m) [
        | inl e ↦ (
          record { node = start; parent_index = 2 ^ 64 - 1; cost = zero_cost },
          ap (λ (x : SmallestHolder). get_elem? (reach start).parents x.index) e,
          subst (λ (x : SmallestHolder). Reached successors start start x.cost) (sym e) here,
        )
        | inr k ↦ absurd (Memᴰ.not-nil k)
      ];
      entries = entry;
    };
    covered = cover;
    settled = λ i m. absurd (Memᴰ.not-nil m);
    closed = λ i v s m k e edge. absurd (Memᴰ.not-nil k);
    rooted = (0, record { node = start; parent_index = 2 ^ 64 - 1; cost = zero_cost }, refl, refl);
  }
    where
      entry :
          (i : ℕ) (v : Visited E)
          → get_elem? (reach start).parents i ≡ some v
          → Reached successors start v.node v.cost
      entry zero v e =
          subst (λ (x : Visited E). Reached successors start x.node x.cost) (some-injective _ v e)
            here
      entry (suc i) v e = absurd (ground arith)

      cover :
          (i : ℕ) (v : Visited E)
          → get_elem? (reach start).parents i ≡ some v
          → Memᴰ i [] ⊎ ((h : SmallestHolder) × Memᴰ h (reach start).to_see × (h.index ≡ i))
      cover zero v e = inr (record { cost = zero_cost; index = 0 }, Memᴰ.head refl, refl)
      cover (suc i) v e = absurd (ground arith)

  -- A popped holder of a seen index can be dropped.
  pub IsTrail-skip :
      (st : DijkstraReachable E) (heap : Heap) (x : SmallestHolder) (rest : List SmallestHolder)
      → IsTrail st
      → heap.pop st.to_see ≡ some (x, rest)
      → Memᴰ x.index st.seen
      → IsTrail (record st { to_see = rest })
  IsTrail-skip st heap x rest t popped seen = record {
    walks = record {
      holders = λ h m. t.walks.holders h (heap.pop_from st.to_see rest x h popped (inr m));
      entries = t.walks.entries;
    };
    covered = λ i v e. elim (t.covered i v e) [
      | inl s ↦ inl s
      | inr (h, m, at) ↦ elim (heap.pop_to st.to_see rest x h popped m) [
        | inl q ↦
            inl
              (subst (λ j. Memᴰ j st.seen) (ap (λ (y : SmallestHolder). y.index) (sym q) ∙ at) seen)
        | inr k ↦ inr (h, k, at)
      ]
    ];
    settled = t.settled;
    closed = t.closed;
    rooted = t.rooted;
  }

  -- The state when a popped node has been settled and its successors relaxed.
  pub IsTrail-visit :
      (st after : DijkstraReachable E) (heap : Heap) (x : SmallestHolder)
      (rest : List SmallestHolder) (v : Visited E)
      → IsTrail st
      → heap.pop st.to_see ≡ some (x, rest)
      → get_elem? st.parents x.index ≡ some v
      → AllRelaxed same same_sound successors start
          (record st { to_see = rest; seen = x.index ∷ st.seen })
          after
          (successors v.node)
      → IsTrail after
  IsTrail-visit st after heap x rest v t popped at r = record {
    walks = r.all_walks;
    covered = cover;
    settled = λ i m.
        let (w, w_eq) = old_entry i (subst (Memᴰ i) r.all_extend.seen_eq m) in
        let (u, u_eq, _) = r.all_extend.kept i w w_eq in (u, u_eq);
    closed = close;
    rooted =
        Known-Extends (record st { to_see = rest; seen = x.index ∷ st.seen }) after start
          r.all_extend t.rooted;
  }
    where
      old_entry :
          (i : ℕ) → Memᴰ i (x.index ∷ st.seen) → (w : Visited E) × (get_elem? st.parents i ≡ some w)
      old_entry i m = elim (Memᴰ.cases_cons m) [
        | inl e ↦ (v, ap (get_elem? st.parents) e ∙ at)
        | inr later ↦ t.settled i later
      ]

      cover :
          (i : ℕ) (u : Visited E)
          → get_elem? after.parents i ≡ some u
          → Memᴰ i after.seen ⊎ ((h : SmallestHolder) × Memᴰ h after.to_see × (h.index ≡ i))
      cover i u e = elim (r.all_extend.back i u e) [
        | inr waiting ↦ inr waiting
        | inl (w, w_eq, _) ↦ elim (t.covered i w w_eq) [
          | inl s ↦ inl (subst (Memᴰ i) (sym r.all_extend.seen_eq) (Memᴰ.tail s))
          | inr (h, m, h_at) ↦ elim (heap.pop_to st.to_see rest x h popped m) [
            | inl q ↦ inl (
                subst (Memᴰ i) (sym r.all_extend.seen_eq)
                  (Memᴰ.head (sym h_at ∙ ap (λ (y : SmallestHolder). y.index) q)))
            | inr k ↦ inr (h, r.all_extend.holders_kept h k, h_at)
          ]
        ]
      ]

      close :
          (i : ℕ) (u : Visited E) (s : E) (m : WeightAndDistance)
          → Memᴰ i after.seen
          → get_elem? after.parents i ≡ some u
          → Memᴰ (s, m) (successors u.node)
          → Known after s
      close i u s m k e edge =
          let k' = subst (Memᴰ i) r.all_extend.seen_eq k in
          let (w, w_eq) = old_entry i k' in
          let (u', u'_eq, node) = r.all_extend.kept i w w_eq in
          let edge' : Memᴰ (s, m) (successors w.node) =
            subst (λ n. Memᴰ (s, m) (successors n))
              (ap (λ (y : Visited E). y.node) (some-injective u u' (sym e ∙ u'_eq)) ∙ node) edge in
          elim (Memᴰ.cases_cons k') [
            | inl q ↦ r.all_known s m (
                subst (λ (y : Visited E). Memᴰ (s, m) (successors y.node))
                  (some-injective w v (sym w_eq ∙ (ap (get_elem? st.parents) q ∙ at))) edge')
            | inr later ↦
                Known-Extends (record st { to_see = rest; seen = x.index ∷ st.seen }) after s
                  r.all_extend (t.closed i w s m later w_eq edge')
          ]
