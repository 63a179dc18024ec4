-- ===== src/Matcher/Pending.antt =====
-- The boundaries that are weighed.
use routers.Common.{
  ℕ, zero, suc, ◌+◌, ◌≤◌, ◌<◌, ◌≡◌, refl, ap, ap₂, sym, subst, ◌∙◌, if◌then◌else◌, Bool, true,
  ℕ_discrete, lt_of_get_elem?, List, [], ◌∷◌, map, none, some, false, All, arith, inl, inr, length,
  get_elem?, get_elem?-some, Bool-cases, u32_mod, as_u32, as_u32_of_lt,
}
use routers.Trellis.Types.{LayerId, Transition, resolved, pending, is_resolved}
use routers.Trellis.Graph.{Trellis, boundaries, range_from, is_resolved_at}
use routers.Matcher.Weigh.{unresolved}

-- The unresolved boundaries among some: each is one of them and is not resolved.
pub unresolved-All {κ} :
    (t : Trellis) (P : ℕ → Type κ) (bs : List LayerId)
    → All P bs
    → All (λ b. P b × (is_resolved_at t b ≡ false)) (unresolved t bs)
unfolding unresolved
unresolved-All t P [] h = tt
unresolved-All t P (b ∷ bs) (here, rest) = elim (Bool-cases (is_resolved_at t b)) [
  | inl done ↦ rw done (unresolved-All t P bs rest)
  | inr waits ↦ rw waits ((here, waits), unresolved-All t P bs rest)
]

pub range_from-lt : (i n top : ℕ) → i + n ≤ top → All (λ k. k < top) (range_from i n)
unfolding range_from
range_from-lt i zero top h = tt
range_from-lt i (suc n) top h = (omega arith, range_from-lt (suc i) n top (omega arith))

words-lt :
    (top : ℕ) (ks : List ℕ)
    → top ≤ u32_mod
    → All (λ k. k < top) ks
    → All (λ k. k < top) (map as_u32 ks)
words-lt top [] small h = tt
words-lt top (k ∷ ks) small (here, rest) =
    (subst (λ x. x < top) (sym (as_u32_of_lt k (omega arith))) here, words-lt top ks small rest)

pub boundaries-lt :
    (t : Trellis)
    → length t.transitions ≤ u32_mod
    → All (λ b. b < length t.transitions) (boundaries t)
unfolding boundaries
boundaries-lt t small =
    words-lt (length t.transitions) (range_from 0 (length t.transitions)) small
      (range_from-lt 0 (length t.transitions) (length t.transitions) (omega arith))

-- Boundaries that ascend from `lo` on.
abbrev pub Above : ℕ → List LayerId → Type 0
Above lo [] = Unit
Above lo (b ∷ bs) = (lo ≤ b) × Above (suc b) bs

Above-weaken : (lo hi : ℕ) (bs : List LayerId) → lo ≤ hi → Above hi bs → Above lo bs
Above-weaken lo hi [] h asc = tt
Above-weaken lo hi (b ∷ bs) h asc = (omega (arith, asc.0), asc.1)

range_from-Above : (i n : ℕ) → Above i (range_from i n)
unfolding range_from
range_from-Above i zero = tt
range_from-Above i (suc n) = (omega arith, range_from-Above (suc i) n)

words_same : (top : ℕ) (ks : List ℕ) → top ≤ u32_mod → All (λ k. k < top) ks → map as_u32 ks ≡ ks
words_same top [] small h = refl
words_same top (k ∷ ks) small (here, rest) =
    ap₂ ◌∷◌ (as_u32_of_lt k (omega arith)) (words_same top ks small rest)

unresolved-Above :
    (t : Trellis) (lo : ℕ) (bs : List LayerId) → Above lo bs → Above lo (unresolved t bs)
unfolding unresolved
unresolved-Above t lo [] h = tt
unresolved-Above t lo (b ∷ bs) (here, rest) = elim (Bool-cases (is_resolved_at t b)) [
  | inl done ↦
      rw done (
        Above-weaken lo (suc b) (unresolved t bs) (omega arith)
          (unresolved-Above t (suc b) bs rest))
  | inr waits ↦ rw waits (here, unresolved-Above t (suc b) bs rest)
]

pub boundaries_lem :
    (t : Trellis)
    → length t.transitions ≤ u32_mod
    → boundaries t ≡ range_from 0 (length t.transitions)
unfolding boundaries
boundaries_lem t small =
    let n = length t.transitions in
    words_same n (range_from 0 n) small (range_from-lt 0 n n (omega arith))

pub boundaries-Above :
    (t : Trellis) → length t.transitions ≤ u32_mod → Above 0 (unresolved t (boundaries t))
unfolding boundaries
boundaries-Above t small =
    let n = length t.transitions in
    unresolved-Above t 0 (map as_u32 (range_from 0 n)) (
      subst (Above 0)
        (sym (words_same n (range_from 0 n) small (range_from-lt 0 n n (omega arith))))
        (range_from-Above 0 n))

-- What holds of the unresolved boundaries holds of every pending one.
unresolved-range :
    (t : Trellis) (P : ℕ → Type 0) (start n i : ℕ)
    → All P (unresolved t (range_from start n))
    → start ≤ i
    → i < start + n
    → is_resolved_at t i ≡ false
    → P i
unfolding unresolved range_from
unresolved-range t P start zero i h low high waits = absurd (omega arith)
unresolved-range t P start (suc n) i h low high waits = elim (Bool-cases (is_resolved_at t start)) [
  | inl done ↦
      unresolved-range t P (suc start) n i (rest_of done h) (later done) (omega arith) waits
  | inr waiting ↦ elim (ℕ_discrete start i) [
    | yes e ↦ subst P e (first_of waiting h).0
    | no ne ↦
        unresolved-range t P (suc start) n i (first_of waiting h).1 (omega (arith, ne))
          (omega arith) waits
  ]
]
  where
    list : Bool → List LayerId
    list b = let rest = unresolved t (range_from (suc start) n) in if b then rest else start ∷ rest

    rest_of :
        is_resolved_at t start ≡ true
        → All P (list (is_resolved_at t start))
        → All P (unresolved t (range_from (suc start) n))
    rest_of done k = subst (λ b. All P (list b)) done k

    first_of :
        is_resolved_at t start ≡ false
        → All P (list (is_resolved_at t start))
        → P start × All P (unresolved t (range_from (suc start) n))
    first_of waiting k = subst (λ b. All P (list b)) waiting k

    differs : true ≡ false → ⊥
    differs e = absurd (ground arith)

    later : is_resolved_at t start ≡ true → suc start ≤ i
    later done = elim (ℕ_discrete start i) [
      | yes e ↦ absurd (differs (sym done ∙ ap (is_resolved_at t) e ∙ waits))
      | no ne ↦ omega (arith, ne)
    ]

pub unresolved-pending :
    (t : Trellis) (P : ℕ → Type 0) (i : ℕ)
    → length t.transitions ≤ u32_mod
    → All P (unresolved t (boundaries t))
    → get_elem? t.transitions i ≡ some pending
    → P i
unfolding is_resolved_at
unresolved-pending t P i small h e =
    unresolved-range t P 0 (length t.transitions) i
      (subst (λ bs. All P (unresolved t bs)) (boundaries_lem t small) h) (omega arith)
      (omega (arith, lt_of_get_elem? t.transitions i e))
      (ap (λ o. elim o [ none ↦ false | some y ↦ is_resolved y ]) e)

-- A boundary in range that is not resolved is pending.
pub is_resolved_at-pending :
    (t : Trellis) (b : LayerId)
    → b < length t.transitions
    → is_resolved_at t b ≡ false
    → get_elem? t.transitions b ≡ some pending
unfolding is_resolved_at
is_resolved_at-pending t b inside h =
    let (x, found) = get_elem?-some t.transitions b inside in of_transition x found
  where
    of_transition :
        (x : Transition)
        → get_elem? t.transitions b ≡ some x
        → get_elem? t.transitions b ≡ some pending
    of_transition pending e = e
    of_transition (resolved ws) e =
        absurd (ground (arith, ap (λ o. elim o [ none ↦ false | some y ↦ is_resolved y ]) e))
