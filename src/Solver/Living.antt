-- ===== src/Solver/Living.antt =====
-- The nodes that `converged_layer` of libs/routers_trellis/src/solver/viterbi.rs starts from.
use mathlib.Core.List.{Memᴰ, reverse}
use mathlib.Core.List.Memᴰ
use mathlib.Core.Option.{some-injective}
use routers.Common.{
  ℕ, zero, suc, ◌+◌, ◌-◌, ◌≤◌, ◌<◌, ◌≡◌, refl, ap, ◌∙◌, sym, subst, inl, inr, List, [], ◌∷◌, ◌++◌,
  some, Bool, true, false, ◌&&◌, arith, length, get_elem?, get_elem?-append, get_elem?-append_left,
  if◌then◌else◌, ltb, leb, lt→ltb, le→ltb, le→leb, Bool-cases, dec_lt, u32_mod, as_u32,
  as_u32_of_lt, reverse_cons, length-reverse,
}
use routers.Trellis.Types.{NodeId, inf_w}
use routers.Solver.Convergence.{live_nodes, all_infinite}
use routers.Solver.Narrow.{IsStrict}

-- The live nodes, from index `i` on, are those whose cost is below the infinity.
pub live_nodes_sound :
    (i : ℕ) (costs : List ℕ) (n : NodeId)
    → i + length costs ≤ u32_mod
    → Memᴰ n (live_nodes i costs)
    → (k : ℕ) × (n ≡ i + k) × (c : ℕ) × (get_elem? costs k ≡ some c) × (c < inf_w)
unfolding live_nodes
live_nodes_sound i [] n small h = absurd (Memᴰ.not-nil h)
live_nodes_sound i (cost ∷ costs) n small h = elim (dec_lt cost inf_w) [
  | yes live ↦
      elim (Memᴰ.cases_cons (
        subst
          (λ b.
            Memᴰ n (if b then as_u32 i ∷ live_nodes (suc i) costs else live_nodes (suc i) costs))
          (lt→ltb cost inf_w live) h)) [
            | inl e ↦ (0, e ∙ as_u32_of_lt i (omega arith) ∙ plus_zero i, cost, refl, live)
            | inr later ↦ shift (live_nodes_sound (suc i) costs n (omega arith) later)
          ]
  | no dead ↦ shift (
      live_nodes_sound (suc i) costs n (omega arith) (
        subst
          (λ b.
            Memᴰ n (if b then as_u32 i ∷ live_nodes (suc i) costs else live_nodes (suc i) costs))
          (le→ltb cost inf_w (omega arith)) h))
]
  where
    plus_zero : (k : ℕ) → k ≡ k + 0
    plus_zero k = omega arith

    shift :
        (k : ℕ) × (n ≡ suc i + k) × (c : ℕ) × (get_elem? costs k ≡ some c) × (c < inf_w)
        → (k : ℕ) × (n ≡ i + k) × (c : ℕ) × (get_elem? (cost ∷ costs) k ≡ some c) × (c < inf_w)
    shift (k, e, c, at, live) = (suc k, omega (arith, e), c, at, live)

pub live_nodes_complete :
    (i : ℕ) (costs : List ℕ) (k c : ℕ)
    → i + length costs ≤ u32_mod
    → get_elem? costs k ≡ some c
    → c < inf_w
    → Memᴰ (i + k) (live_nodes i costs)
unfolding live_nodes
live_nodes_complete i [] k c small at live = absurd (ground arith)
live_nodes_complete i (cost ∷ costs) zero c small at live =
    rw (lt→ltb cost inf_w (omega (arith, some-injective cost c at)))
      (Memᴰ.head (plus_zero i ∙ sym (as_u32_of_lt i (omega arith))))
  where
    plus_zero : (k : ℕ) → k + 0 ≡ k
    plus_zero k = omega arith
live_nodes_complete i (cost ∷ costs) (suc k) c small at live =
    let later =
      subst (λ n. Memᴰ n (live_nodes (suc i) costs)) (step i k)
        (live_nodes_complete (suc i) costs k c (omega arith) at live) in
    elim (Bool-cases (ltb cost inf_w)) [ inl e ↦ rw e (Memᴰ.tail later) | inr e ↦ rw e later ]
  where
    step : (n m : ℕ) → suc n + m ≡ n + suc m
    step n m = omega arith

IsStrict-cons :
    (x : ℕ) (rest : List ℕ) → ((m : ℕ) → Memᴰ m rest → x < m) → IsStrict rest → IsStrict (x ∷ rest)
IsStrict-cons x [] h s = tt
IsStrict-cons x (y ∷ ys) h s = (h y (Memᴰ.head refl), s)

pub live_nodes-IsStrict :
    (i : ℕ) (costs : List ℕ) → i + length costs ≤ u32_mod → IsStrict (live_nodes i costs)
unfolding live_nodes
live_nodes-IsStrict i [] small = tt
live_nodes-IsStrict i (cost ∷ costs) small =
    let later = live_nodes-IsStrict (suc i) costs (omega arith) in
    elim (Bool-cases (ltb cost inf_w)) [
      | inl e ↦ rw e (
          IsStrict-cons (as_u32 i) (live_nodes (suc i) costs)
            (λ m h.
              let (k, m_eq, _, _, _) = live_nodes_sound (suc i) costs m (omega arith) h in
              omega (arith, m_eq, as_u32_of_lt i (omega arith)))
            later)
      | inr e ↦ rw e later
    ]

pub get_elem?-reverse :
    {A : Type 0} (xs : List A) (l : ℕ)
    → l < length xs
    → get_elem? (reverse xs) l ≡ get_elem? xs (length xs - 1 - l)
get_elem?-reverse [] l h = absurd (omega arith)
get_elem?-reverse (x ∷ xs) l h = elim (dec_lt l (length xs)) [
  | yes low ↦
      ap (λ ys. get_elem? ys l) (reverse_cons x xs)
      ∙ get_elem?-append_left (reverse xs) (x ∷ []) l (omega (arith, length-reverse xs))
      ∙ get_elem?-reverse xs l low
      ∙ ap (get_elem? (x ∷ xs)) (index_below (length xs) l low)
  | no top ↦
      ap (λ ys. get_elem? ys l) (reverse_cons x xs)
      ∙ ap (get_elem? (reverse xs ++ x ∷ []))
          (last_index l (length xs) (omega arith) ∙ sym (length-reverse xs))
      ∙ get_elem?-append (reverse xs) x []
      ∙ ap (get_elem? (x ∷ xs)) (index_top (length xs) l (omega arith))
]
  where
    last_index : (a b : ℕ) → a ≡ b → a ≡ b
    last_index a b e = e

    index_below : (k i : ℕ) → i < k → suc (k - 1 - i) ≡ suc k - 1 - i
    index_below k i p = omega arith

    index_top : (k i : ℕ) → i ≡ k → 0 ≡ suc k - 1 - i
    index_top k i e = omega (arith, e)

pub all_infinite-true :
    (costs : List ℕ)
    → ((j c : ℕ) → get_elem? costs j ≡ some c → inf_w ≤ c)
    → all_infinite costs ≡ true
all_infinite-true [] h = refl
all_infinite-true (cost ∷ costs) h =
    rw (le→leb inf_w cost (h 0 cost refl)) (all_infinite-true costs (λ j c e. h (suc j) c e))

pub all_infinite-false :
    (costs : List ℕ) (j c : ℕ) → get_elem? costs j ≡ some c → c < inf_w → all_infinite costs ≡ false
all_infinite-false [] j c e h = absurd (ground arith)
all_infinite-false (cost ∷ costs) zero c e h = ground (arith, e)
all_infinite-false (cost ∷ costs) (suc j) c e h =
    rw (all_infinite-false costs j c e h) (and_false (leb inf_w cost))
  where
    and_false : (b : Bool) → (b && false) ≡ false
    and_false true = refl
    and_false false = refl
