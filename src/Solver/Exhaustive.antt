-- ===== src/Solver/Exhaustive.antt =====
-- libs/routers_trellis/src/solver/brute.rs: the search ends, and it keeps the contract of `Solve`.
use routers.Common.{
  ℕ, zero, suc, ◌-◌, ◌≤◌, ◌<◌, ◌≡◌, refl, ap, ◌∙◌, sym, subst, ◌⊎◌, inl, inr, List, [], ◌∷◌, none,
  some, Bool, true, false, arith, length, replicate, if◌then◌else◌, ltb, leb, lt→ltb, le→ltb,
  le→leb, Bool-cases, dec_lt, ℕ_discrete, u32_mod,
}
use mathlib.Core.Option.{some-injective}
use routers.Common.Outcome.{Outcome, ok, err, panic}
use routers.Trellis.Types.{NodeId, SolveError, not_resolved, unreachable, FoundPath, inf_w}
use routers.Trellis.Graph.{Trellis, layers, first_pending, fully_resolved}
use routers.Trellis.Cost.{path_cost}
use routers.Trellis.Valid.{IsValid}
use routers.Solver.Brute.{increment, finished, search, brute_solve}
use routers.Solver.Odometer.{
  product, InRange, rank, rank-lt, rank-injective, InRange-start, rank-start, StepsTo,
  increment-StepsTo,
}
use routers.Solver.Priced.{path_cost-some, path_cost-InRange}
use routers.Solver.Pending.{first_pending-none, boundaries-pending}
use routers.Solver.Correct.{Answers, solve-Answers}
use routers.Solver.Viterbi.{solve}

length-InRange : (ws : List ℕ) (ns : List NodeId) → InRange ws ns → length ns ≡ length ws
length-InRange [] [] h = refl
length-InRange [] (n ∷ ns) h = absurd h
length-InRange (w ∷ ws) [] h = absurd h
length-InRange (w ∷ ws) (n ∷ ns) h = ap suc (length-InRange ws ns h.1)

-- The best of the paths before place `k`: none below the infinity yet, or one of them.
record Leads (t : Trellis) (k best : ℕ) (nodes : List NodeId) : Type 0 where
  pub found :
      (best ≡ inf_w) ⊎ (InRange t.widths nodes × (path_cost t nodes ≡ some best) × (best < inf_w))
  pub least :
      (ns : List NodeId) (c : ℕ)
      → InRange t.widths ns
      → rank t.widths ns < k
      → path_cost t ns ≡ some c
      → best ≤ c

lt→leb : (a b : ℕ) → b < a → leb a b ≡ false
lt→leb a b h = ground arith

Leads-le : (t : Trellis) (k best : ℕ) (nodes : List NodeId) → Leads t k best nodes → best ≤ inf_w
Leads-le t k best nodes l = elim l.found [ inl e ↦ omega (arith, e) | inr h ↦ omega (arith, h.2) ]

-- Pricing the path at place `k` extends the lead by one.
Leads-step :
    (t : Trellis) (best cost : ℕ) (nodes path : List NodeId)
    → InRange t.widths path
    → path_cost t path ≡ some cost
    → Leads t (rank t.widths path) best nodes
    → Leads t
        (suc (rank t.widths path))
        (if ltb cost best then cost else best)
        (if ltb cost best then path else nodes)
Leads-step t best cost nodes path inside price l = elim (dec_lt cost best) [
  | yes better ↦ rw (lt→ltb cost best better) (record {
    found = inr (inside, price, omega (arith, Leads-le t (rank t.widths path) best nodes l));
    least = λ ns c at h e. elim (ℕ_discrete (rank t.widths ns) (rank t.widths path)) [
      | yes same ↦ omega (arith, priced ns c at same e)
      | no other ↦ omega (arith, l.least ns c at (omega (arith, other)) e)
    ];
  })
  | no worse ↦ rw (le→ltb cost best (omega arith)) (record {
    found = l.found;
    least = λ ns c at h e. elim (ℕ_discrete (rank t.widths ns) (rank t.widths path)) [
      | yes same ↦ omega (arith, priced ns c at same e)
      | no other ↦ l.least ns c at (omega (arith, other)) e
    ];
  })
]
  where
    priced :
        (ns : List NodeId) (c : ℕ)
        → InRange t.widths ns
        → rank t.widths ns ≡ rank t.widths path
        → path_cost t ns ≡ some c
        → c ≡ cost
    priced ns c at same e =
        some-injective c cost
          (sym e ∙ (ap (path_cost t) (rank-injective t.widths ns path at inside same) ∙ price))

search_end :
    (fuel : ℕ) (t : Trellis) (best cost : ℕ) (nodes path next : List NodeId)
    → path_cost t path ≡ some cost
    → increment t.widths path ≡ (true, next)
    → search (suc fuel) t best nodes path
      ≡ finished (if ltb cost best then cost else best) (if ltb cost best then path else nodes)
unfolding search
search_end fuel t best cost nodes path next p q = rw (search, p, q) refl

search_on :
    (fuel : ℕ) (t : Trellis) (best cost : ℕ) (nodes path next : List NodeId)
    → path_cost t path ≡ some cost
    → increment t.widths path ≡ (false, next)
    → search (suc fuel) t best nodes path
      ≡ search fuel t
          (if ltb cost best then cost else best)
          (if ltb cost best then path else nodes)
          next
unfolding search
search_on fuel t best cost nodes path next p q =
    rw (search, p, q)
      (ap
        (λ (r : Bool × List NodeId).
          search fuel t (if ltb cost best then cost else best)
            (if ltb cost best then path else nodes) r.1)
        q)

module _ (t : Trellis) (v : IsValid t) (small : layers t < u32_mod) where
  search-Leads :
      (fuel best : ℕ) (nodes path : List NodeId)
      → fully_resolved t ≡ true
      → InRange t.widths path
      → product t.widths - rank t.widths path ≤ fuel
      → Leads t (rank t.widths path) best nodes
      → (b : ℕ) × (ns : List NodeId) × (search fuel t best nodes path ≡ finished b ns)
        × Leads t (product t.widths) b ns
  search-Leads zero best nodes path done inside enough l =
      absurd (omega (arith, rank-lt t.widths path inside))
  search-Leads (suc fuel) best nodes path done inside enough l =
      let (cost, price) = path_cost-some t v small path done inside in
      of_step cost price (increment t.widths path) refl
        (increment-StepsTo t.widths path v.widths_ok inside)
        (λ b ns next h e ahead. search-Leads fuel b ns next done h e ahead)
    where
      of_step :
          (cost : ℕ)
          → path_cost t path ≡ some cost
          → (r : Bool × List NodeId) → increment t.widths path ≡ r
          → StepsTo t.widths path r
          → ((b : ℕ) (ns next : List NodeId)
              → InRange t.widths next
              → product t.widths - rank t.widths next ≤ fuel
              → Leads t (rank t.widths next) b ns
              → (b' : ℕ) × (ns' : List NodeId) × (search fuel t b ns next ≡ finished b' ns')
                × Leads t (product t.widths) b' ns')
          → (b : ℕ) × (ns : List NodeId) × (search (suc fuel) t best nodes path ≡ finished b ns)
            × Leads t (product t.widths) b ns
      of_step cost price (true, next) e s later = (
        if ltb cost best then cost else best,
        if ltb cost best then path else nodes,
        search_end fuel t best cost nodes path next price e,
        subst
            (λ k.
              Leads t k (if ltb cost best then cost else best)
                (if ltb cost best then path else nodes))
            s.2 (Leads-step t best cost nodes path inside price l),
      )
      of_step cost price (false, next) e s later =
          let (b, ns, ended, ahead) =
            later (if ltb cost best then cost else best) (if ltb cost best then path else nodes)
              next s.0 (omega (arith, s.1))
              (subst
                (λ k.
                  Leads t k (if ltb cost best then cost else best)
                    (if ltb cost best then path else nodes))
                (sym s.1) (Leads-step t best cost nodes path inside price l)) in
          (b, ns, search_on fuel t best cost nodes path next price e ∙ ended, ahead)

  first_path : InRange t.widths (replicate (layers t) 0)
  first_path = InRange-start t.widths v.widths_ok

  -- What the search says of the trellis when it is over.
  answer :
      (b : ℕ) (ns : List NodeId)
      → first_pending t ≡ none
      → Leads t (product t.widths) b ns
      → Answers t (if leb inf_w b then err unreachable else ok (record { nodes = ns; cost = b }))
  answer b ns complete l = elim l.found [
    | inl e ↦ rw (le→leb inf_w b (omega (arith, e))) (
      complete,
      λ ms c size price. omega (
        arith,
        e,
        l.least ms c (path_cost-InRange t v small ms c size price)
            (rank-lt t.widths ms (path_cost-InRange t v small ms c size price)) price,
      ),
    )
    | inr h ↦ rw (lt→leb inf_w b h.2) (
      complete,
      record {
        spans = length-InRange t.widths ns h.0;
        priced = h.1;
        finite = h.2;
        least = λ ms c size price.
            l.least ms c (path_cost-InRange t v small ms c size price)
              (rank-lt t.widths ms (path_cost-InRange t v small ms c size price)) price;
      },
    )
  ]

  brute_solve_lem :
      (fuel b : ℕ) (ns : List NodeId)
      → first_pending t ≡ none
      → search fuel t inf_w [] (replicate (layers t) 0) ≡ finished b ns
      → brute_solve fuel t
        ≡ some (if leb inf_w b then err unreachable else ok (record { nodes = ns; cost = b }))
  unfolding brute_solve
  brute_solve_lem fuel b ns p q = rw (brute_solve, p, q) refl

  brute_solve_pending :
      (fuel l : ℕ) → first_pending t ≡ some l → brute_solve fuel t ≡ some (err (not_resolved l))
  unfolding brute_solve
  brute_solve_pending fuel l e = rw (brute_solve, e) refl

  -- On a valid trellis of fewer than 2^32 layers the exhaustive search ends within as many rounds as there are
  -- combinations of nodes, the product of the widths, and then keeps the contract of a solver: a cheapest
  -- path with its price, `Unreachable` if every path costs the infinity or more, or the first pending boundary.
  pub brute_solve-Answers :
      (fuel : ℕ)
      → product t.widths ≤ fuel
      → (r : Outcome SolveError FoundPath) × (brute_solve fuel t ≡ some r) × Answers t r
  brute_solve-Answers fuel enough = elim (Bool-cases (fully_resolved t)) [
    | inl done ↦
        let complete = first_pending-none t done in
        let start : Leads t (rank t.widths (replicate (layers t) 0)) inf_w [] = record {
          found = inl refl;
          least = λ ns c at h e. absurd (omega (arith, h, rank-start t.widths));
        } in
        let (b, ns, ended, l) =
          search-Leads fuel inf_w [] (replicate (layers t) 0) done first_path (omega arith) start in
        (
          if leb inf_w b then err unreachable else ok (record { nodes = ns; cost = b }),
          brute_solve_lem fuel b ns complete ended,
          answer b ns complete l,
        )
    | inr waits ↦
        let (l, pending_eq, _) = boundaries-pending t v small waits in
        (err (not_resolved l), brute_solve_pending fuel l pending_eq, pending_eq)
  ]

-- Two answers to one trellis: the same cost, or the same error.
abbrev pub SameAnswer : Outcome SolveError FoundPath → Outcome SolveError FoundPath → Type 0
SameAnswer (ok p) (ok q) = p.cost ≡ q.cost
SameAnswer (err e) (err f) = e ≡ f
SameAnswer _ _ = ⊥

some-none : (l : ℕ) → none ≡ some l → ⊥
some-none l e = absurd (ground arith)

-- The contract leaves no choice but the path.
pub Answers-SameAnswer :
    (t : Trellis) (r s : Outcome SolveError FoundPath) → Answers t r → Answers t s → SameAnswer r s
Answers-SameAnswer t (ok p) (ok q) (_, a) (_, b) =
    omega (arith, a.least q.nodes q.cost b.spans b.priced, b.least p.nodes p.cost a.spans a.priced)
Answers-SameAnswer t (ok p) (err (not_resolved l)) a b = some-none l (sym a.0 ∙ b)
Answers-SameAnswer t (ok p) (err unreachable) (_, a) (_, b) =
    absurd (omega (arith, b p.nodes p.cost a.spans a.priced, a.finite))
Answers-SameAnswer t (err (not_resolved l)) (ok q) a b = some-none l (sym b.0 ∙ a)
Answers-SameAnswer t (err unreachable) (ok q) (_, a) (_, b) =
    absurd (omega (arith, a q.nodes q.cost b.spans b.priced, b.finite))
Answers-SameAnswer t (err (not_resolved l)) (err (not_resolved k)) a b =
    ap not_resolved (some-injective l k (sym a ∙ b))
Answers-SameAnswer t (err (not_resolved l)) (err unreachable) a b =
    absurd (some-none l (sym b.0 ∙ a))
Answers-SameAnswer t (err unreachable) (err (not_resolved k)) a b =
    absurd (some-none k (sym a.0 ∙ b))
Answers-SameAnswer t (err unreachable) (err unreachable) a b = refl
Answers-SameAnswer t panic s a b = absurd a
Answers-SameAnswer t (ok p) panic a b = absurd b
Answers-SameAnswer t (err e) panic a b = absurd b

-- On a valid trellis of fewer than 2^32 layers the Viterbi solver and the exhaustive search, run for as many
-- rounds as there are combinations of nodes, give the same cost or the same error.
pub solve-brute_solve :
    (t : Trellis) (fuel : ℕ)
    → IsValid t
    → layers t < u32_mod
    → product t.widths ≤ fuel
    → (r : Outcome SolveError FoundPath) × (brute_solve fuel t ≡ some r) × SameAnswer (solve t) r
solve-brute_solve t fuel v small enough =
    let (r, found, answers) = brute_solve-Answers t v small fuel enough in
    (r, found, Answers-SameAnswer t (solve t) r (solve-Answers t v small) answers)
