-- ===== src/Matcher/Live.antt =====
-- The nodes that the frontier keeps are those that paths of present edges reach.
use mathlib.Core.List.{Memᴰ}
use mathlib.Core.List.Memᴰ
use routers.Common.{
  ℕ, zero, suc, ◌+◌, ◌*◌, ◌≤◌, ◌<◌, ◌≡◌, refl, ap, ◌∙◌, sym, subst, inl, inr, List, [], ◌∷◌, Option,
  some, Bool, true, false, arith, get_elem?, if◌then◌else◌, leb, leb→le, Bool-cases, ℕ_discrete,
}
use routers.Common.Maybe.{◌>>=◌}
use routers.Trellis.Types.{NodeId, max_weight}
use routers.Trellis.Graph.{range_from}
use routers.Matcher.Frontier.{reached, reached_targets}

-- A weight of the matrix that is real.
abbrev pub Hits : List ℕ → ℕ → NodeId → NodeId → Type 0
Hits matrix to_width target s =
    (x : ℕ) × (get_elem? matrix (s * to_width + target) ≡ some x) × (x ≤ max_weight)

-- The cells of a target are there.
abbrev pub Readable : List ℕ → ℕ → List NodeId → NodeId → Type 0
Readable matrix to_width sources target =
    (s : NodeId) → Memᴰ s sources → (x : ℕ) × (get_elem? matrix (s * to_width + target) ≡ some x)

-- What `any` finds.
abbrev IsReached : List ℕ → ℕ → List NodeId → NodeId → Bool → Type 0
IsReached matrix to_width sources target true =
    (s : NodeId) × Memᴰ s sources × Hits matrix to_width target s
IsReached matrix to_width sources target false =
    (s : NodeId) → Memᴰ s sources → Hits matrix to_width target s → ⊥

over :
    (x y : ℕ) (o : Option ℕ)
    → o ≡ some x
    → o ≡ some y
    → leb x max_weight ≡ false
    → y ≤ max_weight
    → ⊥
over x y o p q h k = absurd (ground (arith, p, q))

-- One source: it ends the search, or the rest decides.
reached_real :
    (matrix : List ℕ) (to_width s : ℕ) (ss : List NodeId) (target x : ℕ)
    → get_elem? matrix (s * to_width + target) ≡ some x
    → leb x max_weight ≡ true
    → reached matrix to_width (s ∷ ss) target ≡ some true
unfolding reached
reached_real matrix to_width s ss target x p q =
    ap
      (λ o. o >>= λ weight. elim (leb weight max_weight) [
        | true ↦ some true
        | false ↦ reached matrix to_width ss target
      ])
      p
    ∙ ap (λ b. elim b [ true ↦ some true | false ↦ reached matrix to_width ss target ]) q

reached_absent :
    (matrix : List ℕ) (to_width s : ℕ) (ss : List NodeId) (target x : ℕ)
    → get_elem? matrix (s * to_width + target) ≡ some x
    → leb x max_weight ≡ false
    → reached matrix to_width (s ∷ ss) target ≡ reached matrix to_width ss target
unfolding reached
reached_absent matrix to_width s ss target x p q =
    ap
      (λ o. o >>= λ weight. elim (leb weight max_weight) [
        | true ↦ some true
        | false ↦ reached matrix to_width ss target
      ])
      p
    ∙ ap (λ b. elim b [ true ↦ some true | false ↦ reached matrix to_width ss target ]) q

reached-IsReached :
    (matrix : List ℕ) (to_width : ℕ) (sources : List NodeId) (target : NodeId)
    → Readable matrix to_width sources target
    → (b : Bool) × (reached matrix to_width sources target ≡ some b)
      × IsReached matrix to_width sources target b
unfolding reached
reached-IsReached matrix to_width [] target r = (false, refl, λ s m h. Memᴰ.not-nil m)
reached-IsReached matrix to_width (s ∷ ss) target r =
    let (x, found) = r s (Memᴰ.head refl) in
    elim (Bool-cases (leb x max_weight)) [
      | inl real ↦ (
        true,
        reached_real matrix to_width s ss target x found real,
        (s, Memᴰ.head refl, (x, found, leb→le x max_weight real)),
      )
      | inr absent ↦
          let (b, rest, is) =
            reached-IsReached matrix to_width ss target (λ n m. r n (Memᴰ.tail m)) in
          (
            b,
            reached_absent matrix to_width s ss target x found absent ∙ rest,
            later x b found absent is,
          )
    ]
  where
    later :
        (x : ℕ) (b : Bool)
        → get_elem? matrix (s * to_width + target) ≡ some x
        → leb x max_weight ≡ false
        → IsReached matrix to_width ss target b
        → IsReached matrix to_width (s ∷ ss) target b
    later x true found absent (n, m, h) = (n, Memᴰ.tail m, h)
    later x false found absent none_later = λ n m h. elim (Memᴰ.cases_cons m) [
      | inl e ↦
          over x h.0 (get_elem? matrix (s * to_width + target)) found
            (ap (λ k. get_elem? matrix (k * to_width + target)) (sym e) ∙ h.1) absent h.2
      | inr after ↦ none_later n after h
    ]

-- The targets that the filter keeps.
pub record Kept (matrix : List ℕ) (to_width : ℕ) (sources targets out : List NodeId) : Type 0 where
  pub sound : (n : NodeId) → Memᴰ n out → Memᴰ n targets × IsReached matrix to_width sources n true
  pub complete :
      (n : NodeId) → Memᴰ n targets → IsReached matrix to_width sources n true → Memᴰ n out

keep_hit :
    (matrix : List ℕ) (to_width : ℕ) (sources targets out : List NodeId) (target : NodeId)
    (b : Bool)
    → IsReached matrix to_width sources target b
    → Kept matrix to_width sources targets out
    → Kept matrix to_width sources (target ∷ targets) (if b then target ∷ out else out)
keep_hit matrix to_width sources targets out target true hit k = record {
  sound = λ n m. elim (Memᴰ.cases_cons m) [
    | inl e ↦ (Memᴰ.head e, subst (λ x. IsReached matrix to_width sources x true) (sym e) hit)
    | inr after ↦ (Memᴰ.tail (k.sound n after).0, (k.sound n after).1)
  ];
  complete = λ n m h. elim (Memᴰ.cases_cons m) [
    | inl e ↦ Memᴰ.head e
    | inr after ↦ Memᴰ.tail (k.complete n after h)
  ];
}
keep_hit matrix to_width sources targets out target false miss k = record {
  sound = λ n m. (Memᴰ.tail (k.sound n m).0, (k.sound n m).1);
  complete = λ n m h. elim (Memᴰ.cases_cons m) [
    | inl e ↦ absurd (miss h.0 h.1 (subst (λ x. Hits matrix to_width x h.0) e h.2))
    | inr after ↦ k.complete n after h
  ];
}

pub reached_targets-Kept :
    (matrix : List ℕ) (to_width : ℕ) (sources targets : List NodeId)
    → ((target : NodeId) → Memᴰ target targets → Readable matrix to_width sources target)
    → (out : List NodeId) × (reached_targets matrix to_width sources targets ≡ some out)
      × Kept matrix to_width sources targets out
unfolding reached_targets
reached_targets-Kept matrix to_width sources [] r =
    ([], refl, record { sound = λ n m. absurd (Memᴰ.not-nil m); complete = λ n m h. m })
reached_targets-Kept matrix to_width sources (target ∷ targets) r =
    let (b, here, is) =
      reached-IsReached matrix to_width sources target (r target (Memᴰ.head refl)) in
    let (out, rest, k) =
      reached_targets-Kept matrix to_width sources targets (λ n m. r n (Memᴰ.tail m)) in
    (
      if b then target ∷ out else out,
      rw (here, rest) refl,
      keep_hit matrix to_width sources targets out target b is k,
    )

-- The numbers of a range.
pub range_from-Mem : (i n k : ℕ) → i ≤ k → k < i + n → Memᴰ k (range_from i n)
unfolding range_from
range_from-Mem i zero k h p = absurd (omega arith)
range_from-Mem i (suc n) k h p = elim (ℕ_discrete k i) [
  | yes e ↦ Memᴰ.head e
  | no later ↦ Memᴰ.tail (range_from-Mem (suc i) n k (omega (arith, later)) (omega arith))
]

pub Mem-range_from : (i n k : ℕ) → Memᴰ k (range_from i n) → (i ≤ k) × (k < i + n)
unfolding range_from
Mem-range_from i zero k m = absurd (Memᴰ.not-nil m)
Mem-range_from i (suc n) k m = elim (Memᴰ.cases_cons m) [
  | inl e ↦ (omega (arith, e), omega (arith, e))
  | inr after ↦ let (low, high) = Mem-range_from (suc i) n k after in (omega arith, omega arith)
]
