-- ===== src/Solver/Argmin.antt =====
-- `enumerate().map(|(i, c)| (c, i)).min()`: the least cost, and the lowest index among those that
-- have it.
use routers.Common.{
  ℕ, zero, suc, ◌+◌, ◌-◌, ◌*◌, ◌≤◌, ◌<◌, ◌≡◌, ◌⊎◌, inl, inr, refl, ap, subst, ◌∙◌, sym, List, [],
  ◌∷◌, some, arith, dec_lt, length, get_elem?, drop, u32_mod, as_u32_of_lt, saturating_add,
  if◌then◌else◌,
}
use routers.Trellis.Types.{NodeId}
use routers.Solver.Viterbi.{column_costs, numbered, pair_lt, min_from, min_pair}
use routers.Solver.Relax.{get_elem?-drop}

-- `m` stands at index `k` of the costs numbered from `i`, none is less, and none equal stands before.
pub record IsMinimum (i : ℕ) (cs : List ℕ) (m k : ℕ) : Type 0 where
  pub from_start : i ≤ k
  pub found : get_elem? cs (k - i) ≡ some m
  pub least : (j c : ℕ) → get_elem? cs j ≡ some c → m ≤ c
  pub lowest : (j c : ℕ) → get_elem? cs j ≡ some c → c ≡ m → k ≤ i + j

shift : (i k : ℕ) → suc i ≤ k → k - i ≡ suc (k - suc i)
shift i k h = omega arith

sub_self : (i : ℕ) → i - i ≡ 0
sub_self i = omega arith

IsMinimum-suc :
    (i c : ℕ) (cs : List ℕ) (m k : ℕ) → m < c → IsMinimum (suc i) cs m k → IsMinimum i (c ∷ cs) m k
IsMinimum-suc i c cs m k h p = record {
  from_start = omega (arith, p.from_start);
  found = ap (get_elem? (c ∷ cs)) (shift i k p.from_start) ∙ p.found;
  least = least;
  lowest = lowest;
}
  where
    least : (j x : ℕ) → get_elem? (c ∷ cs) j ≡ some x → m ≤ x
    least zero x e = ground arith
    least (suc j) x e = p.least j x e

    lowest : (j x : ℕ) → get_elem? (c ∷ cs) j ≡ some x → x ≡ m → k ≤ i + j
    lowest zero x e q = ground arith
    lowest (suc j) x e q = omega (arith, p.lowest j x e q)

IsMinimum-zero :
    (i c : ℕ) (cs : List ℕ)
    → ((j x : ℕ) → get_elem? cs j ≡ some x → c ≤ x)
    → IsMinimum i (c ∷ cs) c i
IsMinimum-zero i c cs h = record {
  from_start = omega arith;
  found = ap (get_elem? (c ∷ cs)) (sub_self i);
  least = least;
  lowest = λ j x e q. omega arith;
}
  where
    least : (j x : ℕ) → get_elem? (c ∷ cs) j ≡ some x → c ≤ x
    least zero x e = ground arith
    least (suc j) x e = h j x e

take_lesser :
    (c i b k : ℕ)
    → c < b
    → ◌≡◌ {A = ℕ × NodeId} (if pair_lt (c, i) (b, k) then (c, i) else (b, k)) (c, i)
take_lesser c i b k h = ground arith

keep_best :
    (c i b k : ℕ)
    → b ≤ c
    → k < i
    → ◌≡◌ {A = ℕ × NodeId} (if pair_lt (c, i) (b, k) then (c, i) else (b, k)) (b, k)
keep_best c i b k h q = ground arith

-- The running best survives, or gives way to a lesser one.
abbrev Outlasts : ℕ → ℕ × NodeId → List ℕ → ℕ × NodeId → Type 0
Outlasts i best cs r =
    (r ≡ best) × ((j c : ℕ) → get_elem? cs j ≡ some c → best.0 ≤ c)
    ⊎ (r.0 < best.0) × IsMinimum i cs r.0 r.1

Outlasts-new :
    (i c b k : ℕ) (cs : List ℕ) (r : ℕ × NodeId)
    → c < b
    → Outlasts (suc i) (c, i) cs r
    → Outlasts i (b, k) (c ∷ cs) r
Outlasts-new i c b k cs r h (inl (e, least)) = inr (rw e h, rw e (IsMinimum-zero i c cs least))
Outlasts-new i c b k cs r h (inr (lt, p)) = inr (omega arith, IsMinimum-suc i c cs r.0 r.1 lt p)

Outlasts-old :
    (i c b k : ℕ) (cs : List ℕ) (r : ℕ × NodeId)
    → b ≤ c
    → Outlasts (suc i) (b, k) cs r
    → Outlasts i (b, k) (c ∷ cs) r
Outlasts-old i c b k cs r h (inl (e, least)) = inl (e, all)
  where
    all : (j x : ℕ) → get_elem? (c ∷ cs) j ≡ some x → b ≤ x
    all zero x q = ground arith
    all (suc j) x q = least j x q
Outlasts-old i c b k cs r h (inr (lt, p)) = inr (lt, IsMinimum-suc i c cs r.0 r.1 (omega arith) p)

min_from-Outlasts :
    (i b k : ℕ) (cs : List ℕ)
    → k < i
    → i + length cs ≤ u32_mod
    → Outlasts i (b, k) cs (min_from (b, k) (numbered i cs))
unfolding min_from numbered
min_from-Outlasts i b k [] h small = inl (refl, λ j c e. absurd (ground arith))
min_from-Outlasts i b k (c ∷ cs) h small = rw (as_u32_of_lt i (omega arith)) (elim (dec_lt c b) [
  | yes less ↦
      subst (λ x. Outlasts i (b, k) (c ∷ cs) (min_from x (numbered (suc i) cs)))
        (sym (take_lesser c i b k less))
        (Outlasts-new i c b k cs _ less
          (min_from-Outlasts (suc i) c i cs (omega arith) (omega arith)))
  | no more ↦
      subst (λ x. Outlasts i (b, k) (c ∷ cs) (min_from x (numbered (suc i) cs)))
        (sym (keep_best c i b k (omega arith) h))
        (Outlasts-old i c b k cs _ (omega arith)
          (min_from-Outlasts (suc i) b k cs (omega arith) (omega arith)))
])

-- Of from one to 2^32 costs, numbered from 0, `min` takes a cost that stands at the number taken with it,
-- is not above any other, and stands before every equal one.
pub min_pair-IsMinimum :
    (c : ℕ) (cs : List ℕ)
    → length (c ∷ cs) ≤ u32_mod
    → (m : ℕ) × (k : NodeId) × (min_pair (numbered 0 (c ∷ cs)) ≡ some (m, k))
      × IsMinimum 0 (c ∷ cs) m k
unfolding min_pair numbered
min_pair-IsMinimum c cs small =
    rw (as_u32_of_lt 0 (omega arith))
      (of_cases _ refl (min_from-Outlasts 1 c 0 cs (omega arith) (omega arith)))
  where
    of_cases :
        (r : ℕ × NodeId)
        → r ≡ min_from (c, 0) (numbered 1 cs)
        → Outlasts 1 (c, 0) cs r
        → (m : ℕ) × (k : NodeId) × (some (min_from (c, 0) (numbered 1 cs)) ≡ some (m, k))
          × IsMinimum 0 (c ∷ cs) m k
    of_cases r e (inl (q, least)) = (c, 0, rw (← e) (ap some q), IsMinimum-zero 0 c cs least)
    of_cases r e (inr (lt, p)) = (r.0, r.1, ap some (sym e), IsMinimum-suc 0 c cs r.0 r.1 lt p)

zero_row : (width : ℕ) → 0 ≡ 0 * width
zero_row width = omega arith

next_row_at : (i width : ℕ) → suc i * width ≡ width + i * width
next_row_at i width = grind arith

column_at :
    (width : ℕ) (costs column : List ℕ) (i : ℕ) {c e : ℕ}
    → get_elem? costs i ≡ some c
    → get_elem? column (i * width) ≡ some e
    → get_elem? (column_costs width costs column) i ≡ some (saturating_add c e)
unfolding column_costs
column_at width [] column i p q = absurd (ground arith)
column_at width (x ∷ costs) [] i p q = absurd (ground arith)
column_at width (x ∷ costs) (y ∷ column) zero p q =
    let q' : some y ≡ some _ = ap (get_elem? (y ∷ column)) (zero_row width) ∙ q in ground arith
column_at width (x ∷ costs) (y ∷ column) (suc i) p q =
    column_at width costs (drop width (y ∷ column)) i p
      (get_elem?-drop width (y ∷ column) (i * width) (suc i * width) (next_row_at i width) ∙ q)

-- The sums of one column: node `i` below with the weight of its edge into `chosen`.
pub column_costs-get_elem? :
    (width : ℕ) (costs ws : List ℕ) (chosen i : ℕ) {c e : ℕ}
    → get_elem? costs i ≡ some c
    → get_elem? ws (i * width + chosen) ≡ some e
    → get_elem? (column_costs width costs (drop chosen ws)) i ≡ some (saturating_add c e)
column_costs-get_elem? width costs ws chosen i p q =
    column_at width costs (drop chosen ws) i p
      (get_elem?-drop chosen ws (i * width) (i * width + chosen) (omega arith) ∙ q)

pub length-column_costs-le :
    (width : ℕ) (costs column : List ℕ) → length (column_costs width costs column) ≤ length costs
unfolding column_costs
length-column_costs-le width [] column = omega arith
length-column_costs-le width (x ∷ costs) [] = omega arith
length-column_costs-le width (x ∷ costs) (y ∷ column) =
    omega (arith, length-column_costs-le width costs (drop width (y ∷ column)))
