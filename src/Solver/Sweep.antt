-- ===== src/Solver/Sweep.antt =====
-- The sweep of `converged_layer`, against the paths that backtracking gives from each node of the frontier.
use mathlib.Core.List.{Memᴰ}
use routers.Common.{
  ℕ, suc, ◌-◌, ◌<◌, ◌≡◌, ◌≢◌, refl, ap, ap₂, ◌∙◌, sym, subst, inl, inr, List, [], ◌∷◌, Option, none,
  some, true, false, arith, length, get_elem?, ◌==◌, Bool-cases, dec_lt,
}
use routers.Common.Outcome.{Outcome, ok, ◌>>=◌, ok-injective}
use routers.Trellis.Types.{LayerId, NodeId, SolveError}
use routers.Solver.Forward.{Boundary}
use routers.Solver.Convergence.{predecessors, sort, dedup, sweep}
use routers.Solver.Narrow.{narrow-Mem, narrow_one, narrow_two}
use routers.Solver.Traces.{
  Traces, AreTraced, Preceded, Traces-First, First-Traces, predecessors-Preceded,
}

-- Reversed boundaries, each named by the number of those below it.
abbrev pub AreNumbered : List Boundary → Type 0
AreNumbered [] = Unit
AreNumbered (b ∷ bs) = (b.id ≡ length bs) × AreNumbered bs

module _ (dist : List ℕ) where
  -- All paths from the frontier share their node at layer `l`, or two of them differ there.
  abbrev pub Fuses : List Boundary → List NodeId → ℕ → Type 0
  Fuses bs frontier l =
      (c : NodeId) × ((n : NodeId) (p : List NodeId)
        → Memᴰ n frontier
        → Traces dist bs n p
        → get_elem? p (length bs - 1 - l) ≡ some c)

  pub record Splits (bs : List Boundary) (frontier : List NodeId) (l : ℕ) : Type 0 where
    pub one : NodeId
    pub other : NodeId
    pub one_path : List NodeId
    pub other_path : List NodeId
    pub one_in : Memᴰ one frontier
    pub other_in : Memᴰ other frontier
    pub one_traced : Traces dist bs one one_path
    pub other_traced : Traces dist bs other other_path
    pub one_at : NodeId
    pub other_at : NodeId
    pub one_eq : get_elem? one_path (length bs - 1 - l) ≡ some one_at
    pub other_eq : get_elem? other_path (length bs - 1 - l) ≡ some other_at
    pub differ : one_at ≢ other_at

  -- The latest layer at which the paths fuse, or that there is none.
  abbrev pub IsLatest : List Boundary → List NodeId → Option LayerId → Type 0
  IsLatest bs frontier none = (l : ℕ) → l < length bs → Splits bs frontier l
  IsLatest bs frontier (some layer) =
      (layer < length bs)
      × Fuses bs frontier layer
      × ((l : ℕ) → layer < l → l < length bs → Splits bs frontier l)

  sweep_one :
      (b : Boundary) (bs : List Boundary) (frontier ps : List NodeId)
      → predecessors b dist frontier ≡ ok ps
      → (length (dedup (sort ps)) == 1) ≡ true
      → sweep (b ∷ bs) dist frontier ≡ ok (some b.id)
  unfolding sweep
  sweep_one b bs frontier ps p q =
      ap
        (λ (o : Outcome SolveError (List NodeId)). o >>= λ xs.
          elim (length (dedup (sort xs)) == 1) [
            | true ↦ ok (some b.id)
            | false ↦ sweep bs dist (dedup (sort xs))
          ])
        p
      ∙ ap (λ c. elim c [ true ↦ ok (some b.id) | false ↦ sweep bs dist (dedup (sort ps)) ]) q

  sweep_on :
      (b : Boundary) (bs : List Boundary) (frontier ps : List NodeId)
      → predecessors b dist frontier ≡ ok ps
      → (length (dedup (sort ps)) == 1) ≡ false
      → sweep (b ∷ bs) dist frontier ≡ sweep bs dist (dedup (sort ps))
  unfolding sweep
  sweep_on b bs frontier ps p q =
      ap
        (λ (o : Outcome SolveError (List NodeId)). o >>= λ xs.
          elim (length (dedup (sort xs)) == 1) [
            | true ↦ ok (some b.id)
            | false ↦ sweep bs dist (dedup (sort xs))
          ])
        p
      ∙ ap (λ c. elim c [ true ↦ ok (some b.id) | false ↦ sweep bs dist (dedup (sort ps)) ]) q

  index_top : (k l : ℕ) → l ≡ k → suc k - 1 - l ≡ 0
  index_top k l e = omega (arith, e)

  index_below : (k l : ℕ) → l < k → suc k - 1 - l ≡ suc (k - 1 - l)
  index_below k l h = omega arith

  -- What is said of the predecessors holds of the frontier, one boundary up.
  Fuses-up :
      (b : Boundary) (bs : List Boundary) (frontier ps : List NodeId) (l : ℕ)
      → l < length bs
      → Preceded dist b frontier ps
      → Fuses bs (dedup (sort ps)) l
      → Fuses (b ∷ bs) frontier l
  Fuses-up b bs frontier ps l h k (c, all) = (
    c,
    λ n p n_in traced.
        let f = Traces-First dist b bs n p traced in
        let i_in = (narrow-Mem f.before ps).0 (k.to n f.before n_in f.chosen) in
        ap₂ get_elem? f.split (index_below (length bs) l h) ∙ all f.before f.rest i_in f.traced,
  )

  Splits-up :
      (b : Boundary) (bs : List Boundary) (frontier ps : List NodeId) (l : ℕ)
      → l < length bs
      → Preceded dist b frontier ps
      → Splits bs (dedup (sort ps)) l
      → Splits (b ∷ bs) frontier l
  Splits-up b bs frontier ps l h k s =
      let (n, n_in, n_eq) = k.from s.one ((narrow-Mem s.one ps).1 s.one_in) in
      let (m, m_in, m_eq) = k.from s.other ((narrow-Mem s.other ps).1 s.other_in) in
      record {
        one = n;
        other = m;
        one_path = s.one ∷ s.one_path;
        other_path = s.other ∷ s.other_path;
        one_in = n_in;
        other_in = m_in;
        one_traced = First-Traces dist b bs n s.one s.one_path n_eq s.one_traced;
        other_traced = First-Traces dist b bs m s.other s.other_path m_eq s.other_traced;
        one_at = s.one_at;
        other_at = s.other_at;
        one_eq = ap (get_elem? (s.one ∷ s.one_path)) (index_below (length bs) l h) ∙ s.one_eq;
        other_eq =
            ap (get_elem? (s.other ∷ s.other_path)) (index_below (length bs) l h) ∙ s.other_eq;
        differ = s.differ;
      }

  Splits-top :
      (b : Boundary) (bs : List Boundary) (frontier ps : List NodeId) (l x y : ℕ)
      → l ≡ length bs
      → Preceded dist b frontier ps
      → AreTraced dist bs ps
      → Memᴰ x ps
      → Memᴰ y ps
      → x ≢ y
      → Splits (b ∷ bs) frontier l
  Splits-top b bs frontier ps l x y e k traced x_in y_in ne =
      let (n, n_in, n_eq) = k.from x x_in in
      let (m, m_in, m_eq) = k.from y y_in in
      let (p, p_traced) = traced x x_in in
      let (q, q_traced) = traced y y_in in
      record {
        one = n;
        other = m;
        one_path = x ∷ p;
        other_path = y ∷ q;
        one_in = n_in;
        other_in = m_in;
        one_traced = First-Traces dist b bs n x p n_eq p_traced;
        other_traced = First-Traces dist b bs m y q m_eq q_traced;
        one_at = x;
        other_at = y;
        one_eq = ap (get_elem? (x ∷ p)) (index_top (length bs) l e);
        other_eq = ap (get_elem? (y ∷ q)) (index_top (length bs) l e);
        differ = ne;
      }

  IsLatest-up :
      (b : Boundary) (bs : List Boundary) (frontier ps : List NodeId) (r : Option LayerId)
      → Preceded dist b frontier ps
      → ((l : ℕ) → l ≡ length bs → Splits (b ∷ bs) frontier l)
      → IsLatest bs (dedup (sort ps)) r
      → IsLatest (b ∷ bs) frontier r
  IsLatest-up b bs frontier ps none k here below = λ l h. elim (dec_lt l (length bs)) [
    | yes low ↦ Splits-up b bs frontier ps l low k (below l low)
    | no top ↦ here l (omega arith)
  ]
  IsLatest-up b bs frontier ps (some layer) k here (inside, fuses, above) = (
    omega arith,
    Fuses-up b bs frontier ps layer inside k fuses,
    λ l after h. elim (dec_lt l (length bs)) [
      | yes low ↦ Splits-up b bs frontier ps l low k (above l after low)
      | no top ↦ here l (omega arith)
    ],
  )

  -- The sweep from a frontier whose nodes can be traced back finds the latest layer at which their paths fuse.
  pub sweep-IsLatest :
      (bs : List Boundary) (frontier : List NodeId) (k : NodeId)
      → AreNumbered bs
      → AreTraced dist bs frontier
      → Memᴰ k frontier
      → (r : Option LayerId) × (sweep bs dist frontier ≡ ok r) × IsLatest bs frontier r
  unfolding sweep
  sweep-IsLatest [] frontier k numbers traced k_in = (none, refl, λ l h. absurd (omega arith))
  sweep-IsLatest (b ∷ bs) frontier k numbers traced k_in =
      let (ps, pre) = predecessors-Preceded dist b frontier (λ n n_in.
        let (p, full) = traced n n_in in
        let f = Traces-First dist b bs n p full in (f.before, f.chosen)) in
      of_ps ps pre
        (λ frontier' k' traced' k_in'. sweep-IsLatest bs frontier' k' numbers.1 traced' k_in')
    where
      of_ps :
          (ps : List NodeId)
          → Preceded dist b frontier ps
          → ((frontier' : List NodeId) (k' : NodeId)
              → AreTraced dist bs frontier'
              → Memᴰ k' frontier'
              → (r : Option LayerId) × (sweep bs dist frontier' ≡ ok r) × IsLatest bs frontier' r)
          → (r : Option LayerId) × (sweep (b ∷ bs) dist frontier ≡ ok r)
            × IsLatest (b ∷ bs) frontier r
      of_ps ps pre later =
          let (p, full) = traced k k_in in
          let f = Traces-First dist b bs k p full in
          let i_in = pre.to k f.before k_in f.chosen in
          let traced_ps : AreTraced dist bs ps = λ m m_in.
            let (n, n_in, n_eq) = pre.from m m_in in
            let (q, q_full) = traced n n_in in
            let g = Traces-First dist b bs n q q_full in
            (
              g.rest,
              subst (λ x. Traces dist bs x g.rest) (ok-injective g.before m (sym g.chosen ∙ n_eq))
                  g.traced,
            ) in
          elim (Bool-cases (length (dedup (sort ps)) == 1)) [
            | inl single ↦
                let (c, all) = narrow_one ps single in
                (
                  some b.id,
                  sweep_one b bs frontier ps pre.found single,
                  (
                    omega (arith, numbers.0),
                    (
                      c,
                      λ n q n_in q_full.
                          let g = Traces-First dist b bs n q q_full in
                          ap₂ get_elem? g.split (index_top (length bs) b.id numbers.0)
                          ∙ ap some (all g.before (pre.to n g.before n_in g.chosen)),
                    ),
                    λ l after h. absurd (omega (arith, numbers.0)),
                  ),
                )
            | inr more ↦
                let (x, y, x_in, y_in, ne) = narrow_two ps f.before more i_in in
                let (r, found, latest) =
                  later (dedup (sort ps)) f.before
                    (λ m m_in. traced_ps m ((narrow-Mem m ps).1 m_in))
                    ((narrow-Mem f.before ps).0 i_in) in
                (
                  r,
                  sweep_on b bs frontier ps pre.found more ∙ found,
                  IsLatest-up b bs frontier ps r pre
                      (λ l e. Splits-top b bs frontier ps l x y e pre traced_ps x_in y_in ne)
                      latest,
                )
          ]
