-- ===== src/Tests/Routes.antt =====
-- The iterator of libs/routers_transition/src/primitives/algorithms/dijkstra.rs over a list as a heap.
use mathlib.Core.List.{Memᴰ}
use mathlib.Core.List.Memᴰ
use mathlib.Core.Option.{some-injective}
use routers.Common.{
  ℕ, zero, suc, ◌≤◌, ◌≡◌, refl, ap, sym, subst, ◌⊎◌, inl, inr, List, [], ◌∷◌, Option, none, some,
  Bool, true, arith, length, as_u32, leb, Bool-cases, ◌==◌,
}
use routers.Routing.Cost.{WeightAndDistance, repr, weight, add_cost}
use routers.Routing.Dijkstra.{SmallestHolder, Heap, next, reach}
use routers.Routing.Trail.{reach-IsTrail}
use routers.Routing.Visits.{NextAnswer, next-NextAnswer}

record IsPop (h : List SmallestHolder) (z : SmallestHolder) (rest : List SmallestHolder)
    : Type 0 where
  long : length h ≡ suc (length rest)
  from : (y : SmallestHolder) → (y ≡ z) ⊎ Memᴰ y rest → Memᴰ y h
  to : (y : SmallestHolder) → Memᴰ y h → (y ≡ z) ⊎ Memᴰ y rest
  low : (y : SmallestHolder) → Memᴰ y rest → repr z.cost ≤ repr y.cost

IsPop-first :
    (x : SmallestHolder) (ys : List SmallestHolder) (z : SmallestHolder)
    (rest : List SmallestHolder)
    → IsPop ys z rest
    → repr x.cost ≤ repr z.cost
    → IsPop (x ∷ ys) x (z ∷ rest)
IsPop-first x ys z rest p le = record {
  long = ap suc p.long;
  from = λ y m. elim m [ inl e ↦ Memᴰ.head e | inr k ↦ Memᴰ.tail (p.from y (Memᴰ.cases_cons k)) ];
  to = λ y m. elim (Memᴰ.cases_cons m) [
    | inl e ↦ inl e
    | inr k ↦ inr (elim (p.to y k) [ inl e ↦ Memᴰ.head e | inr j ↦ Memᴰ.tail j ])
  ];
  low = λ y m. elim (Memᴰ.cases_cons m) [
    | inl e ↦ subst (λ (w : SmallestHolder). repr x.cost ≤ repr w.cost) (sym e) le
    | inr k ↦ omega (arith, le, p.low y k)
  ];
}

IsPop-later :
    (x : SmallestHolder) (ys : List SmallestHolder) (z : SmallestHolder)
    (rest : List SmallestHolder)
    → IsPop ys z rest
    → repr z.cost ≤ repr x.cost
    → IsPop (x ∷ ys) z (x ∷ rest)
IsPop-later x ys z rest p le = record {
  long = ap suc p.long;
  from = λ y m. elim m [
    | inl e ↦ Memᴰ.tail (p.from y (inl e))
    | inr k ↦ elim (Memᴰ.cases_cons k) [
      | inl e ↦ Memᴰ.head e
      | inr j ↦ Memᴰ.tail (p.from y (inr j))
    ]
  ];
  to = λ y m. elim (Memᴰ.cases_cons m) [
    | inl e ↦ inr (Memᴰ.head e)
    | inr k ↦ elim (p.to y k) [ inl e ↦ inl e | inr j ↦ inr (Memᴰ.tail j) ]
  ];
  low = λ y m. elim (Memᴰ.cases_cons m) [
    | inl e ↦ subst (λ (w : SmallestHolder). repr z.cost ≤ repr w.cost) (sym e) le
    | inr k ↦ p.low y k
  ];
}

abbrev Popped : List SmallestHolder → Type 0
Popped h = (z : SmallestHolder) × (rest : List SmallestHolder) × IsPop h z rest

keep : (x : SmallestHolder) (ys : List SmallestHolder) → Popped ys → Popped (x ∷ ys)
keep x ys (z, rest, p) = elim (Bool-cases (leb (repr x.cost) (repr z.cost))) [
  | inl le ↦ (x, z ∷ rest, IsPop-first x ys z rest p (ground arith))
  | inr gt ↦ (z, x ∷ rest, IsPop-later x ys z rest p (ground arith))
]

least : (x : SmallestHolder) (ys : List SmallestHolder) → Popped (x ∷ ys)
least x [] = (
  x,
  [],
  record {
    long = refl;
    from = λ y m. elim m [ inl e ↦ Memᴰ.head e | inr k ↦ absurd (Memᴰ.not-nil k) ];
    to = λ y m. Memᴰ.cases_cons m;
    low = λ y m. absurd (Memᴰ.not-nil m);
  },
)
least x (y ∷ ys) = keep x (y ∷ ys) (least y ys)

unfoldable pop : List SmallestHolder → Option (SmallestHolder × List SmallestHolder)
pop [] = none
pop (x ∷ xs) = let (z, rest, _) = least x xs in some (z, rest)

pop-IsPop :
    (h rest : List SmallestHolder) (x : SmallestHolder) → pop h ≡ some (x, rest) → IsPop h x rest
unfolding pop
pop-IsPop [] rest x e = absurd (ground arith)
pop-IsPop (y ∷ ys) rest x e =
    let (z, others, p) = least y ys in
    subst (λ (r : SmallestHolder × List SmallestHolder). let (a, b) = r in IsPop (y ∷ ys) a b)
      (some-injective (z, others) (x, rest) e) p

pop_none : (h : List SmallestHolder) → pop h ≡ none → h ≡ []
unfolding pop
pop_none [] e = refl
pop_none (x ∷ xs) e = absurd (ground arith)

abbrev list_heap : Heap
list_heap = record {
  pop = pop;
  pop_none = pop_none;
  pop_length = λ h rest x e. (pop-IsPop h rest x e).long;
  pop_from = λ h rest x y e. (pop-IsPop h rest x e).from y;
  pop_to = λ h rest x y e. (pop-IsPop h rest x e).to y;
  pop_least = λ h rest x y e. (pop-IsPop h rest x e).low y;
}

-- Two edges from 0, and one from 1.
abbrev edges : ℕ → List (ℕ × WeightAndDistance)
edges zero =
    (1, record { numerator = 1; denominator = 1; distance_cm = 5 })
    ∷ (2, record { numerator = 100; denominator = 1; distance_cm = 10 })
    ∷ []
edges (suc zero) = (2, record { numerator = 1; denominator = 1; distance_cm = 7 }) ∷ []
edges (suc (suc n)) = []

abbrev same : ℕ → ℕ → Bool
same a b = a == b

same_sound : (a b : ℕ) → same a b ≡ true → a ≡ b
same_sound a b e = ground arith

next_example :
    NextAnswer same same_sound list_heap edges 0 (reach 0) (next same list_heap edges (reach 0))
next_example =
    next-NextAnswer same same_sound list_heap edges 0 (reach 0)
      (reach-IsTrail same same_sound edges 0)

-- An edge of low weight makes a dear route cheaper.
cost_of_dear_edge : repr (record { numerator = 100; denominator = 1; distance_cm = 10 }) ≡ 100000
unfolding repr weight
cost_of_dear_edge = refl

cost_of_longer_route :
    repr (
      add_cost
        (record { numerator = 100; denominator = 1; distance_cm = 10 })
        (record { numerator = 1; denominator = 1; distance_cm = 1 }))
    ≡ 27500
unfolding repr weight add_cost as_u32
cost_of_longer_route = refl
