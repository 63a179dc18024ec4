-- ===== src/Matcher/Unanchored.antt =====
-- libs/routers_transition/src/matcher/entity.rs: the points that `extend` rejects.
use mathlib.Core.List.{Memᴰ}
use mathlib.Core.List.Memᴰ
use mathlib.Core.Option.{some-injective}
use routers.Common.{
  ℕ, zero, suc, ◌+◌, ◌≡◌, refl, ap, ◌∙◌, sym, inl, inr, ◌↔◌, List, [], ◌∷◌, some, arith, length,
  get_elem?,
}
use routers.Trip.Store.{Candidate}
use routers.Matcher.Error.{Unanchored}
use routers.Matcher.Run.{unanchored_from}

-- The points that an error of `extend` names: those whose layers have no candidate, each with the place of
-- its layer.
module _ {Edge Point : Type 0} where
  abbrev pub IsUnanchored :
      ℕ → List (List (Candidate Edge Point)) → List Point → Unanchored Point → Type 0
  IsUnanchored layer css points u =
      (i : ℕ) × (u.layer ≡ layer + i)
      × (get_elem? css i ≡ some [])
      × (get_elem? points i ≡ some u.origin)

  later_unanchored :
      (layer : ℕ) (cs : List (Candidate Edge Point)) (css : List (List (Candidate Edge Point)))
      (p : Point) (points : List Point) (u : Unanchored Point)
      → IsUnanchored (suc layer) css points u
      → IsUnanchored layer (cs ∷ css) (p ∷ points) u
  later_unanchored layer cs css p points u (i, at, none_there, there) =
      (suc i, omega (arith, at), none_there, there)

  unanchored_from-Mem_sound :
      (layer : ℕ) (css : List (List (Candidate Edge Point))) (points : List Point)
      (u : Unanchored Point)
      → Memᴰ u (unanchored_from layer css points)
      → IsUnanchored layer css points u
  unfolding unanchored_from
  unanchored_from-Mem_sound layer [] points u m = absurd (Memᴰ.not-nil m)
  unanchored_from-Mem_sound layer (cs ∷ css) [] u m = absurd (Memᴰ.not-nil m)
  unanchored_from-Mem_sound layer ([] ∷ css) (p ∷ points) u m = elim (Memᴰ.cases_cons m) [
    | inl e ↦ (
      0,
      ap (λ (v : Unanchored Point). v.layer) e ∙ plus_zero layer,
      refl,
      ap (λ (v : Unanchored Point). some v.origin) (sym e),
    )
    | inr after ↦
        later_unanchored layer [] css p points u
          (unanchored_from-Mem_sound (suc layer) css points u after)
  ]
    where
      plus_zero : (n : ℕ) → n ≡ n + 0
      plus_zero n = omega arith
  unanchored_from-Mem_sound layer ((c ∷ cs) ∷ css) (p ∷ points) u m =
      later_unanchored layer (c ∷ cs) css p points u
        (unanchored_from-Mem_sound (suc layer) css points u m)

  unanchored_from-Mem_complete :
      (layer i : ℕ) (css : List (List (Candidate Edge Point))) (points : List Point)
      (u : Unanchored Point)
      → u.layer ≡ layer + i
      → get_elem? css i ≡ some []
      → get_elem? points i ≡ some u.origin
      → Memᴰ u (unanchored_from layer css points)
  unfolding unanchored_from
  unanchored_from-Mem_complete layer i [] points u at none_there there = absurd (ground arith)
  unanchored_from-Mem_complete layer i (cs ∷ css) [] u at none_there there = absurd (ground arith)
  unanchored_from-Mem_complete layer zero ([] ∷ css) (p ∷ points) u at none_there there =
      Memᴰ.head (λ k. record { layer = same k; origin = sym (some-injective p u.origin there) k })
    where
      same : u.layer ≡ layer
      same = omega (arith, at)
  unanchored_from-Mem_complete layer zero ((c ∷ cs) ∷ css) (p ∷ points) u at none_there there =
      absurd (omega (arith, ap length (some-injective (c ∷ cs) [] none_there)))
  unanchored_from-Mem_complete layer (suc i) ([] ∷ css) (p ∷ points) u at none_there there =
      Memᴰ.tail (
        unanchored_from-Mem_complete (suc layer) i css points u (omega (arith, at)) none_there
          there)
  unanchored_from-Mem_complete layer (suc i) ((c ∷ cs) ∷ css) (p ∷ points) u at none_there there =
      unanchored_from-Mem_complete (suc layer) i css points u (omega (arith, at)) none_there there

  -- The error of `extend` names a point and a layer exactly if the layer is that of the point and has no
  -- candidate.
  pub unanchored_from-Mem :
      (layer : ℕ) (css : List (List (Candidate Edge Point))) (points : List Point)
      (u : Unanchored Point)
      → Memᴰ u (unanchored_from layer css points) ↔ (
          (i : ℕ) × (u.layer ≡ layer + i)
          × (get_elem? css i ≡ some [])
          × (get_elem? points i ≡ some u.origin))
  unanchored_from-Mem layer css points u = (
    unanchored_from-Mem_sound layer css points u,
    λ (i, at, none_there, there).
        unanchored_from-Mem_complete layer i css points u at none_there there,
  )
