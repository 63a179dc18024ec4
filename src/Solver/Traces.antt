-- ===== src/Solver/Traces.antt =====
-- The full paths that backtracking gives through reversed boundaries, and the predecessors of a frontier
-- (libs/routers_trellis/src/solver/viterbi.rs).
use mathlib.Core.List.{Memᴰ}
use mathlib.Core.List.Memᴰ
use routers.Common.{ℕ, suc, ◌≡◌, refl, ap, ◌∙◌, sym, inl, inr, List, [], ◌∷◌, arith, length}
use routers.Common.Outcome.{Outcome, ok, err, panic, ◌>>=◌, ok-injective}
use routers.Trellis.Types.{NodeId, SolveError}
use routers.Solver.Forward.{Boundary}
use routers.Solver.Viterbi.{predecessor, trace_back}
use routers.Solver.Convergence.{predecessors}

module _ (dist : List ℕ) where
  -- A path back from a node through all boundaries, the last one first.
  abbrev pub Traces : List Boundary → NodeId → List NodeId → Type 0
  Traces bs n p = (trace_back bs dist n ≡ ok p) × (length p ≡ length bs)

  -- A full path takes a predecessor at each boundary.
  pub record First (b : Boundary) (bs : List Boundary) (n : NodeId) (p : List NodeId) : Type 0 where
    pub before : NodeId
    pub rest : List NodeId
    pub chosen : predecessor b dist n ≡ ok before
    pub split : p ≡ before ∷ rest
    pub traced : Traces bs before rest

  pub Traces-First :
      (b : Boundary) (bs : List Boundary) (n : NodeId) (p : List NodeId)
      → Traces (b ∷ bs) n p
      → First b bs n p
  unfolding trace_back
  Traces-First b bs n p (e, size) = of_predecessor (predecessor b dist n) refl e
    where
      of_rest :
          (i : NodeId) (r : Outcome SolveError (List NodeId))
          → predecessor b dist n ≡ ok i
          → trace_back bs dist i ≡ r
          → (r >>= λ rest. ok (i ∷ rest)) ≡ ok p
          → First b bs n p
      of_rest i (ok rest) q traced f =
          let same = ok-injective (i ∷ rest) p f in
          record {
            before = i;
            rest = rest;
            chosen = q;
            split = sym same;
            traced = (traced, omega (arith, ap length same, size));
          }
      of_rest i (err x) q traced f = absurd (ground arith)
      of_rest i panic q traced f = absurd (ground arith)

      of_predecessor :
          (r : Outcome (Unit {0}) NodeId)
          → predecessor b dist n ≡ r
          → (elim r [
            | ok i ↦ (trace_back bs dist i >>= λ rest. ok (i ∷ rest))
            | err _ ↦ ok []
            | panic ↦ panic
          ])
            ≡ ok p
          → First b bs n p
      of_predecessor (ok i) q f = of_rest i (trace_back bs dist i) q refl f
      of_predecessor (err x) q f = absurd (omega (arith, ap length (ok-injective [] p f), size))
      of_predecessor panic q f = absurd (ground arith)

  pub First-Traces :
      (b : Boundary) (bs : List Boundary) (n i : NodeId) (p : List NodeId)
      → predecessor b dist n ≡ ok i
      → Traces bs i p
      → Traces (b ∷ bs) n (i ∷ p)
  unfolding trace_back
  First-Traces b bs n i p q (e, size) = (rw (trace_back, q, e) refl, ap suc size)

  -- Nodes that can be traced back in full.
  abbrev pub AreTraced : List Boundary → List NodeId → Type 0
  AreTraced bs frontier = (n : NodeId) → Memᴰ n frontier → (p : List NodeId) × Traces bs n p

  -- The next frontier holds the predecessors of this one.
  pub record Preceded (b : Boundary) (frontier ps : List NodeId) : Type 0 where
    pub found : predecessors b dist frontier ≡ ok ps
    pub from :
        (m : NodeId) → Memᴰ m ps → (n : NodeId) × Memᴰ n frontier × (predecessor b dist n ≡ ok m)
    pub to : (n m : NodeId) → Memᴰ n frontier → predecessor b dist n ≡ ok m → Memᴰ m ps

  predecessors_cons :
      (b : Boundary) (n i : NodeId) (ns ps : List NodeId)
      → predecessor b dist n ≡ ok i
      → predecessors b dist ns ≡ ok ps
      → predecessors b dist (n ∷ ns) ≡ ok (i ∷ ps)
  unfolding predecessors
  predecessors_cons b n i ns ps p q = rw (predecessors, p, q) refl

  pub predecessors-Preceded :
      (b : Boundary) (frontier : List NodeId)
      → ((n : NodeId) → Memᴰ n frontier → (i : NodeId) × (predecessor b dist n ≡ ok i))
      → (ps : List NodeId) × Preceded b frontier ps
  unfolding predecessors
  predecessors-Preceded b [] each = (
    [],
    record {
      found = refl;
      from = λ m h. absurd (Memᴰ.not-nil h);
      to = λ n m h. absurd (Memᴰ.not-nil h);
    },
  )
  predecessors-Preceded b (n ∷ ns) each =
      let (i, here) = each n (Memᴰ.head refl) in
      let (ps, later) = predecessors-Preceded b ns (λ k h. each k (Memᴰ.tail h)) in
      (
        i ∷ ps,
        record {
          found = predecessors_cons b n i ns ps here later.found;
          from = λ m h. elim (Memᴰ.cases_cons h) [
            | inl e ↦ (n, Memᴰ.head refl, here ∙ ap ok (sym e))
            | inr k ↦ let (x, x_in, x_eq) = later.from m k in (x, Memᴰ.tail x_in, x_eq)
          ];
          to = λ x m h e. elim (Memᴰ.cases_cons h) [
            | inl q ↦ Memᴰ.head (ok-injective m i (sym e ∙ (ap (predecessor b dist) q ∙ here)))
            | inr k ↦ Memᴰ.tail (later.to x m k e)
          ];
        },
      )
